-- ===== src/Regex/Search/Copies.antt =====
-- What `regexec` leaves in `pmatch`.
use lamp_userspace.Prelude.{
  ℕ, zero, suc, ◌+◌, ◌*◌, ◌≤◌, ◌<◌, ◌≡◌, ◌⊎◌, inl, inr, refl, sym, ap, ◌∙◌, true, false, List,
  get_elem?, get_or, set, length, length-set, get_elem?-set_ne, get_elem?-set_self, get_elem?-lt,
  Option, none, some, ltb, ltb-true, ltb-false, if◌then◌else◌, arith,
}
use native.Mathlib.Decide.{ℕ_discrete, dec_lt}
use lamp_userspace.Regex.{Regex}
use lamp_userspace.Regex.Search.{Match, copy_matches}

-- The bounds of the group `k`, the whole match being group 0.
abbrev pub group_at : List (Option ℕ) → ℕ → Match
group_at captures k = record {
  rm_so = get_or captures (2 * k) none;
  rm_eo = get_or captures (2 * k + 1) none;
}

-- The groups up to `groups` are in the entries below `nmatch`, and the other entries are as before.
abbrev pub Copied : ℕ → ℕ → List (Option ℕ) → List Match → List Match → Type 0
Copied groups nmatch captures given new =
    (length new ≡ length given)
    × ((k : ℕ)
        → k < nmatch
        → k ≤ groups
        → k < length given
        → get_elem? new k ≡ some (group_at captures k))
    × ((k : ℕ) → (nmatch ≤ k) ⊎ (groups < k) → get_elem? new k ≡ get_elem? given k)

-- With no array, or with REG_NOSUB, nothing is written.
abbrev pub Written :
    Regex → ℕ → List (Option ℕ) → Option (List Match) → Option (List Match) → Type 0
Written preg nmatch captures none new = new ≡ none
Written preg nmatch captures (some given) none = ⊥
Written preg nmatch captures (some given) (some new) =
    (preg.re_cflags.nosub ≡ true → new ≡ given)
    × (preg.re_cflags.nosub ≡ false → Copied preg.re_nsub nmatch captures given new)

module _ (captures : List (Option ℕ)) where
  abbrev entry : ℕ → Match
  entry i = record {
    rm_so = get_or captures (i * 2) none;
    rm_eo = get_or captures (i * 2 + 1) none;
  }

  entry_lem : (i k : ℕ) → i ≡ k → entry i ≡ group_at captures k
  entry_lem i k same =
      let twice : i * 2 ≡ 2 * k = omega (arith, same) in
      ap
        (λ (n : ℕ). record { rm_so = get_or captures n none; rm_eo = get_or captures (n + 1) none })
        twice

  length-copy_matches :
      (left i : ℕ) (pmatch : List Match)
      → length (copy_matches left i captures pmatch) ≡ length pmatch
  unfolding copy_matches
  length-copy_matches zero i pmatch = refl
  length-copy_matches (suc left) i pmatch =
      length-copy_matches left (i + 1) _ ∙ length-set pmatch i _

  copy_matches_other :
      (left i k : ℕ) (pmatch : List Match)
      → (k < i) ⊎ (i + left ≤ k)
      → get_elem? (copy_matches left i captures pmatch) k ≡ get_elem? pmatch k
  unfolding copy_matches
  copy_matches_other zero i k pmatch h = refl
  copy_matches_other (suc left) i k pmatch h =
      copy_matches_other left (i + 1) k _
        (elim h [ inl low ↦ inl (omega (arith, low)) | inr high ↦ inr (omega (arith, high)) ])
      ∙ get_elem?-set_ne pmatch i k _
          (λ e. elim h [ inl low ↦ omega (arith, low, e) | inr high ↦ omega (arith, high, e) ])

  copy_matches_at :
      (left i k : ℕ) (pmatch : List Match)
      → i ≤ k
      → k < i + left
      → k < length pmatch
      → get_elem? (copy_matches left i captures pmatch) k ≡ some (group_at captures k)
  unfolding copy_matches
  copy_matches_at zero i k pmatch low high inside = absurd (omega (arith, low, high))
  copy_matches_at (suc left) i k pmatch low high inside = elim (ℕ_discrete i k) [
    | yes same ↦
        copy_matches_other left (i + 1) k _ (inl (omega (arith, same)))
        ∙ (ap (get_elem? (set pmatch i (entry i))) (sym same)
            ∙ (get_elem?-set_self pmatch i (entry i)
                  (get_elem?-lt pmatch i (omega (arith, same, inside))).1
                ∙ ap some (entry_lem i k same)))
    | no other ↦
        copy_matches_at left (i + 1) k _ (omega (arith, low, other)) (omega (arith, high))
          (omega (arith, inside, length-set pmatch i (entry i)))
  ]

  pub copied_lem :
      (groups nmatch : ℕ) (given : List Match)
      → Copied groups nmatch captures given
          (copy_matches (if ltb (groups + 1) nmatch then groups + 1 else nmatch) 0 captures given)
  copied_lem groups nmatch given = elim (dec_lt (groups + 1) nmatch) [
    | yes more ↦ rw (ltb-true (groups + 1) nmatch more) (
      length-copy_matches (groups + 1) 0 given,
      λ k below in_groups inside.
          copy_matches_at (groups + 1) 0 k given (omega arith) (omega (arith, in_groups)) inside,
      λ k out.
          copy_matches_other (groups + 1) 0 k given
            (inr (elim out [ inl a ↦ omega (arith, a, more) | inr b ↦ omega (arith, b) ])),
    )
    | no few ↦ rw (ltb-false (groups + 1) nmatch (omega (arith, few))) (
      length-copy_matches nmatch 0 given,
      λ k below in_groups inside.
          copy_matches_at nmatch 0 k given (omega arith) (omega (arith, below)) inside,
      λ k out.
          copy_matches_other nmatch 0 k given
            (inr (elim out [ inl a ↦ omega (arith, a) | inr b ↦ omega (arith, b, few) ])),
    )
  ]
