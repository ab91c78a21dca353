-- ===== src/Stdlib/Sort.antt =====
-- lib/libc_stdlib.c, `qsort` and `bsearch`. An element of `size` bytes is a value of a type; the
-- comparison is the caller's.
pub mod Order
pub mod Search
use lamp_userspace.Prelude.{
  ℕ, zero, suc, ◌+◌, ◌-◌, ◌/◌, Bool, true, false, ltb, if◌then◌else◌, List, [], ◌∷◌, length,
  get_elem?, none, some,
}
use lamp_userspace.Prelude.Int.{ℤ, pos, negsuc}

-- The test `compar(…) > 0`.
abbrev pub is_positive : ℤ → Bool
is_positive (pos zero) = false
is_positive (pos (suc n)) = true
is_positive (negsuc n) = false

module _ {A : Type 0} (compar : A → A → ℤ) where
  -- The loop over `j`, from `b[i]` and what follows it: they after the exchanges.
  pub pass : A → List A → A × List A
  pass x [] = (x, [])
  pass x (y ∷ ys) =
      let swap = is_positive (compar x y) in
      let (m, rest) = pass (if swap then y else x) ys in (m, (if swap then x else y) ∷ rest)

  -- The loop over `i`, with the rounds that are left and the array from `i` on.
  pub exchange : ℕ → List A → List A
  exchange zero xs = xs
  exchange (suc left) [] = []
  exchange (suc left) (x ∷ xs) = let (m, rest) = pass x xs in m ∷ exchange left rest

  unfoldable pub qsort : ℕ → List A → List A
  unfolding pass exchange
  qsort size base = if ltb 64 size then base else exchange (length base) base

-- How `bsearch` ends: with the index of an element or a null pointer.
pub data Position : Type 0 where
  at : ℕ → Position
  absent fault out_of_fuel : Position

-- The three tests on `cmp`.
abbrev pub by_sign : ℤ → Position → Position → Position → Position
by_sign (negsuc n) less greater same = less
by_sign (pos (suc n)) less greater same = greater
by_sign (pos zero) less greater same = same

module _ {A B : Type 0} (compar : B → A → ℤ) (key : B) (base : List A) where
  pub search_between : ℕ → ℕ → ℕ → Position
  search_between zero lo hi = out_of_fuel
  search_between (suc fuel) lo hi =
      let mid = lo + (hi - lo) / 2 in
      let below = search_between fuel lo mid in
      let above = search_between fuel (mid + 1) hi in
      if ltb lo hi
      then elim (get_elem? base mid) [
        | none ↦ fault
        | some x ↦ by_sign (compar key x) below above (at mid)
      ]
      else absent

  unfoldable pub bsearch : Position
  unfolding search_between
  bsearch = search_between (length base + 1) 0 (length base)
