-- ===== src/Strings/Text/Split.antt =====
-- What repeated calls of `strsep` and `strtok_r` give.
use lamp_userspace.Prelude.{
  ℕ, zero, suc, ◌<◌, ◌≤◌, ◌≡◌, refl, ap, ◌∙◌, Bool, false, if◌then◌else◌, List, [], ◌∷◌, map,
  length, take, drop, Option, none, some, Bool-cases, inl, inr, arith,
}
use lamp_userspace.Strings.Text.{
  is_some, strchr, strspn, strcspn, behind, strsep, next_token, strtok_r,
}

abbrev pub extend : ℕ → List (List ℕ) → List (List ℕ)
extend c [] = (c ∷ []) ∷ []
extend c (t ∷ ts) = (c ∷ t) ∷ ts

-- The pieces of a text between its separators, empty ones included.
abbrev pub pieces : (ℕ → Bool) → List ℕ → List (List ℕ)
pieces is_separator [] = [] ∷ []
pieces is_separator (c ∷ s) =
    if is_separator c then [] ∷ pieces is_separator s else extend c (pieces is_separator s)

abbrev pub nonempty : List (List ℕ) → List (List ℕ)
nonempty [] = []
nonempty ([] ∷ ts) = nonempty ts
nonempty ((c ∷ t) ∷ ts) = (c ∷ t) ∷ nonempty ts

-- The first `n` of a list that goes on with empty texts.
abbrev pub padded : ℕ → List (List ℕ) → List (List ℕ)
padded zero ts = []
padded (suc n) [] = [] ∷ padded n []
padded (suc n) (t ∷ ts) = t ∷ padded n ts

padded-end : (n : ℕ) → padded n ([] ∷ []) ≡ padded n []
padded-end zero = refl
padded-end (suc n) = refl

length-drop_le : (n : ℕ) (s : List ℕ) → length (drop n s) ≤ length s
length-drop_le zero s = omega arith
length-drop_le (suc n) [] = omega arith
length-drop_le (suc n) (c ∷ s) = omega (arith, length-drop_le n s)

length-behind_le : (s : List ℕ) → length (behind s) ≤ length s
length-behind_le [] = omega arith
length-behind_le (c ∷ s) = omega arith

module _ (delim : List ℕ) where
  abbrev is_separator : ℕ → Bool
  is_separator c = is_some (strchr delim c)

  -- What `n` calls of `strsep` return.
  abbrev pub separated : ℕ → Option (List ℕ) → List (Option (List ℕ))
  separated zero p = []
  separated (suc n) p = let (token, next) = strsep delim p in token ∷ separated n next

  abbrev later : List ℕ → List (List ℕ)
  later [] = []
  later (d ∷ r) = pieces is_separator r

  pieces-strcspn :
      (s : List ℕ)
      → pieces is_separator s ≡ take (strcspn s delim) s ∷ later (drop (strcspn s delim) s)
  unfolding strcspn
  pieces-strcspn [] = refl
  pieces-strcspn (c ∷ s) = elim (Bool-cases (is_separator c)) [
    | inl separates ↦ rw separates refl
    | inr inside ↦ rw (inside, pieces-strcspn s) refl
  ]

  padded-later :
      (n : ℕ) (r : List ℕ) → padded n (pieces is_separator (behind r)) ≡ padded n (later r)
  padded-later n [] = padded-end n
  padded-later n (d ∷ r) = refl

  -- `n` calls of `strsep` give the pieces of the text between the delimiters, empty ones included, and
  -- after the last piece empty texts for ever: it never reports that the text is used up.
  pub strsep_lem :
      (n : ℕ) (s : List ℕ) → separated n (some s) ≡ map some (padded n (pieces is_separator s))
  unfolding strsep
  strsep_lem zero s = refl
  strsep_lem (suc n) s = rw (pieces-strcspn s) (
      ap (λ ts. some (take (strcspn s delim) s) ∷ ts)
        (strsep_lem n (behind (drop (strcspn s delim) s)) ∙ ap (map some) (padded-later n _)))

  -- The tokens of all the calls of `strtok_r`, with at most `n` of them; `none` when they do not end.
  abbrev pub tokens : ℕ → List ℕ → Option (List (List ℕ))
  tokens zero s = none
  tokens (suc n) s =
      let (token, save) = strtok_r delim s in
      let rest = tokens n save in
      elim token [ none ↦ some [] | some t ↦ elim rest [ none ↦ none | some ts ↦ some (t ∷ ts) ] ]

  nonempty-skip :
      (s : List ℕ)
      → nonempty (pieces is_separator (drop (strspn s delim) s)) ≡ nonempty (pieces is_separator s)
  unfolding strspn
  nonempty-skip [] = refl
  nonempty-skip (c ∷ s) = elim (Bool-cases (is_separator c)) [
    | inl separates ↦ rw separates (nonempty-skip s)
    | inr inside ↦ rw (inside, inside) refl
  ]

  -- The text that is left starts with no separator.
  Starts : List ℕ → Type 0
  Starts [] = Unit
  Starts (c ∷ s) = is_separator c ≡ false

  strspn-Starts : (s : List ℕ) → Starts (drop (strspn s delim) s)
  unfolding strspn Starts
  strspn-Starts [] = tt
  strspn-Starts (c ∷ s) = elim (Bool-cases (is_separator c)) [
    | inl separates ↦ rw separates (strspn-Starts s)
    | inr inside ↦ rw inside inside
  ]

  nonempty-later : (r : List ℕ) → nonempty (pieces is_separator (behind r)) ≡ nonempty (later r)
  nonempty-later [] = refl
  nonempty-later (d ∷ r) = refl

  strcspn-inside :
      (c : ℕ) (r : List ℕ) → is_separator c ≡ false → strcspn (c ∷ r) delim ≡ suc (strcspn r delim)
  unfolding strcspn
  strcspn-inside c r inside = rw inside refl

  tokens-next :
      (n : ℕ) (r : List ℕ)
      → Starts r
      → ((save : List ℕ)
          → length save < length r
          → tokens n save ≡ some (nonempty (pieces is_separator save)))
      → elim ((next_token delim r).0) [
        | none ↦ some []
        | some t ↦ elim (tokens n (next_token delim r).1) [ none ↦ none | some ts ↦ some (t ∷ ts) ]
      ]
        ≡ some (nonempty (pieces is_separator r))
  unfolding Starts
  tokens-next n [] starts more = refl
  tokens-next n (c ∷ r) starts more =
      let rest : List ℕ = drop (strcspn r delim) r in
      let less : length (behind rest) < suc (length r) =
        omega (arith, length-behind_le rest, length-drop_le (strcspn r delim) r) in
      rw
        (
          pieces-strcspn (c ∷ r),
          strcspn-inside c r starts,
          more (behind rest) less,
          strcspn-inside c r starts,
        )
        (ap (λ ts. some ((c ∷ take (strcspn r delim) r) ∷ ts)) (nonempty-later rest))

  -- The calls of `strtok_r` end, after as many as the text has bytes and one more, and their tokens are
  -- the pieces of the text between the delimiters that are not empty.
  pub strtok_r_lem :
      (n : ℕ) (s : List ℕ) → length s < n → tokens n s ≡ some (nonempty (pieces is_separator s))
  unfolding strtok_r
  strtok_r_lem zero s h = absurd (omega (arith, h))
  strtok_r_lem (suc n) s h =
      tokens-next n (drop (strspn s delim) s) (strspn-Starts s) (λ save less.
        strtok_r_lem n save (omega (arith, h, less, length-drop_le (strspn s delim) s)))
      ∙ ap some (nonempty-skip s)
