-- ===== src/Stdlib/Sort/Order.antt =====
-- `qsort` sorts.
use mathlib.Core.List.{Perm}
use mathlib.Core.List.Perm
use lamp_userspace.Prelude.{
  ℕ, zero, suc, ◌≤◌, ◌≡◌, refl, Bool, true, false, if◌then◌else◌, List, [], ◌∷◌, length, arith,
  Bool-cases, inl, inr, ltb-false,
}
use lamp_userspace.Prelude.Int.{ℤ}
use lamp_userspace.Stdlib.Sort.{is_positive, pass, exchange, qsort}

abbrev All {ℓ} : {A : Type ℓ} → (A → Type 0) → List A → Type 0
All P [] = Unit {0}
All P (x ∷ xs) = P x × All P xs

module _ {A : Type 0} (compar : A → A → ℤ) where
  -- The comparison does not call `x` greater.
  abbrev pub Before : A → A → Type 0
  Before x y = is_positive (compar x y) ≡ false

  -- Nothing stands behind what is less.
  abbrev pub IsSorted : List A → Type 0
  IsSorted [] = Unit {0}
  IsSorted (x ∷ xs) = All (Before x) xs × IsSorted xs

  pass-perm : (x : A) (ys : List A) → let r = pass compar x ys in Perm (r.0 ∷ r.1) (x ∷ ys)
  unfolding pass
  pass-perm x [] = Perm.refl (x ∷ [])
  pass-perm x (y ∷ ys) = elim (Bool-cases (is_positive (compar x y))) [
    | inl swap ↦ rw swap (
        Perm.trans (Perm.swap x _ _)
          (Perm.trans (Perm.cons x (pass-perm y ys)) (Perm.refl (x ∷ y ∷ ys))))
    | inr stay ↦ rw stay (
        Perm.trans (Perm.swap y _ _) (Perm.trans (Perm.cons y (pass-perm x ys)) (Perm.swap x y ys)))
  ]

  exchange-perm : (left : ℕ) (xs : List A) → Perm (exchange compar left xs) xs
  unfolding exchange
  exchange-perm zero xs = Perm.refl xs
  exchange-perm (suc left) [] = Perm.refl []
  exchange-perm (suc left) (x ∷ xs) =
      Perm.trans (Perm.cons _ (exchange-perm left (pass compar x xs).1)) (pass-perm x xs)

  length-pass : (x : A) (ys : List A) → length (pass compar x ys).1 ≡ length ys
  unfolding pass
  length-pass x [] = refl
  length-pass x (y ∷ ys) = omega (arith, length-pass (if is_positive (compar x y) then y else x) ys)

  pass-All :
      (P : A → Type 0) (x : A) (ys : List A)
      → P x
      → All P ys
      → let r = pass compar x ys in P r.0 × All P r.1
  unfolding pass
  pass-All P x [] h all = (h, tt)
  pass-All P x (y ∷ ys) h all = elim (Bool-cases (is_positive (compar x y))) [
    | inl swap ↦ rw swap (let (a, b) = pass-All P y ys all.0 all.1 in (a, (h, b)))
    | inr stay ↦ rw stay (let (a, b) = pass-All P x ys h all.1 in (a, (all.0, b)))
  ]

  exchange-All :
      (P : A → Type 0) (left : ℕ) (xs : List A) → All P xs → All P (exchange compar left xs)
  unfolding exchange
  exchange-All P zero xs all = all
  exchange-All P (suc left) [] all = all
  exchange-All P (suc left) (x ∷ xs) all =
      let (a, b) = pass-All P x xs all.0 all.1 in (a, exchange-All P left (pass compar x xs).1 b)

  module _ (total : (x y : A) → is_positive (compar x y) ≡ true → Before y x)
      (trans : (x y z : A) → Before x y → Before y z → Before x z) where
    Before-refl : (x : A) → Before x x
    Before-refl x = elim (Bool-cases (is_positive (compar x x))) [
      | inl yes_x ↦ total x x yes_x
      | inr no_x ↦ no_x
    ]

    abbrev Leads : A → A × List A → Type 0
    Leads x r = Before r.0 x × All (Before r.0) r.1

    pass_step :
        (x y : A) (ys : List A)
        → Leads x (pass compar x ys)
        → Leads y (pass compar y ys)
        → (swap : Bool) → is_positive (compar x y) ≡ swap
        → let r = pass compar (if swap then y else x) ys in
          Leads x (r.0, (if swap then x else y) ∷ r.1)
    pass_step x y ys (a, b) (a', b') true e =
        let c = trans (pass compar y ys).0 y x a' (total x y e) in (c, (c, b'))
    pass_step x y ys (a, b) (a', b') false e = (a, (trans (pass compar x ys).0 x y a e, b))

    -- The element that a pass leaves in front is before all others and before the first.
    pass_least : (x : A) (ys : List A) → Leads x (pass compar x ys)
    unfolding pass
    pass_least x [] = (Before-refl x, tt)
    pass_least x (y ∷ ys) =
        pass_step x y ys (pass_least x ys) (pass_least y ys) (is_positive (compar x y)) refl

    exchange-IsSorted :
        (left : ℕ) (xs : List A) → length xs ≤ left → IsSorted (exchange compar left xs)
    unfolding exchange
    exchange-IsSorted zero [] h = tt
    exchange-IsSorted zero (x ∷ xs) h = absurd (omega arith)
    exchange-IsSorted (suc left) [] h = tt
    exchange-IsSorted (suc left) (x ∷ xs) h = (
      exchange-All (Before (pass compar x xs).0) left (pass compar x xs).1 (pass_least x xs).1,
      exchange-IsSorted left (pass compar x xs).1 (omega (arith, length-pass x xs)),
    )

    -- For a comparison that is a total preorder and for elements of at most 64 bytes, `qsort` gives
    -- a permutation of the array in which no element is greater than a later one.
    pub qsort_lem :
        (size : ℕ) (base : List A)
        → size ≤ 64
        → Perm (qsort compar size base) base × IsSorted (qsort compar size base)
    unfolding qsort
    qsort_lem size base small =
        rw (ltb-false 64 size small)
          (exchange-perm (length base) base, exchange-IsSorted (length base) base (omega arith))
