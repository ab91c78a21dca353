-- ===== src/Stdlib/Sort/Search.antt =====
-- `bsearch` on an ordered array.
use lamp_userspace.Prelude.{
  ℕ, zero, suc, ◌+◌, ◌-◌, ◌/◌, ◌≤◌, ◌<◌, ◌≡◌, ◌≢◌, refl, List, length, get_elem?, get_elem?-lt,
  lt_of_get_elem?, some, arith, ltb-false, ltb-true,
}
use native.Mathlib.Decide.{dec_lt}
use lamp_userspace.Prelude.Int.{ℤ, pos, negsuc}
use lamp_userspace.Stdlib.Sort.{
  Position, at, absent, fault, out_of_fuel, by_sign, search_between, bsearch,
}

module _ {A B : Type 0} (compar : B → A → ℤ) (key : B) (base : List A) where
  abbrev pub Less : A → Type 0
  Less x = (n : ℕ) × (compar key x ≡ negsuc n)

  abbrev pub Greater : A → Type 0
  Greater x = (n : ℕ) × (compar key x ≡ pos (suc n))

  -- Where the key is less it stays less, and where it is greater it was greater before.
  abbrev pub IsOrdered : Type 0
  IsOrdered =
      (i j : ℕ) (x y : A)
      → i ≤ j
      → get_elem? base i ≡ some x
      → get_elem? base j ≡ some y
      → (Less x → Less y) × (Greater y → Greater x)

  abbrev pub Located : Position → Type 0
  Located (at i) = (x : A) × (get_elem? base i ≡ some x) × (compar key x ≡ pos 0)
  Located absent = (i : ℕ) (x : A) → get_elem? base i ≡ some x → compar key x ≢ pos 0
  Located fault = ⊥
  Located out_of_fuel = ⊥

  -- What the bounds mean: the key is greater before `lo` and less from `hi` on.
  abbrev Bounds : ℕ → ℕ → Type 0
  Bounds lo hi =
      (i : ℕ) (x : A) → get_elem? base i ≡ some x → (i < lo → Greater x) × (hi ≤ i → Less x)

  branch_lem :
      (mid : ℕ) (x : A) (less greater : Position)
      → get_elem? base mid ≡ some x
      → (Less x → Located less)
      → (Greater x → Located greater)
      → (z : ℤ) → compar key x ≡ z
      → Located (by_sign z less greater (at mid))
  branch_lem mid x less greater found below above (negsuc n) e = below (n, e)
  branch_lem mid x less greater found below above (pos (suc n)) e = above (n, e)
  branch_lem mid x less greater found below above (pos zero) e = (x, found, e)

  search_between_lem :
      (fuel lo hi : ℕ)
      → IsOrdered
      → hi ≤ length base
      → hi - lo < fuel
      → Bounds lo hi
      → Located (search_between compar key base fuel lo hi)
  unfolding search_between
  search_between_lem zero lo hi ordered inside few bounds = elim few [ ]
  search_between_lem (suc fuel) lo hi ordered inside few bounds = elim (dec_lt lo hi) [
    | yes more ↦
        let mid = lo + (hi - lo) / 2 in
        let (x, found) = get_elem?-lt base (lo + (hi - lo) / 2) (omega arith) in
        rw (ltb-true lo hi more, found)
          (branch_lem mid x _ _ found
            (λ less.
              search_between_lem fuel lo mid ordered (omega arith) (omega arith) (λ i y there.
                ((bounds i y there).0, λ from. (ordered mid i x y from found there).0 less)))
            (λ greater.
              search_between_lem fuel (mid + 1) hi ordered inside (omega arith) (λ i y there. (
                λ to. (ordered i mid y x (omega arith) there found).1 greater,
                (bounds i y there).1,
              )))
            (compar key x) refl)
    | no done ↦ rw (ltb-false lo hi (omega arith)) (λ i x there same. elim (dec_lt i lo) [
      | yes before ↦ let (n, e) = (bounds i x there).0 before in cc
      | no after ↦ let (n, e) = (bounds i x there).1 (omega arith) in cc
    ])
  ]

  -- On an array that is ordered for the key, `bsearch` ends inside the array; it returns an element
  -- that compares equal, or a null pointer, and then no element does.
  pub bsearch_lem : IsOrdered → Located (bsearch compar key base)
  unfolding bsearch
  bsearch_lem ordered =
      search_between_lem (length base + 1) 0 (length base) ordered (omega arith) (omega arith)
        (λ i x there. (
          λ before. absurd (omega arith),
          λ after. absurd (let inside = lt_of_get_elem? base i there in omega arith),
        ))
