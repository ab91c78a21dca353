-- ===== src/Strings/Text/Search.antt =====
-- The search for a text in another.
use lamp_userspace.Prelude.{
  ℕ, zero, suc, ◌<◌, ◌≤◌, ◌≡◌, refl, ap, sym, ◌∙◌, true, false, List, [], ◌∷◌, ◌++◌, length, drop,
  Option, none, some, Bool-cases, inl, inr, arith, ==_iff, ==-false,
}
use native.Mathlib.Decide.{ℕ_discrete}
use lamp_userspace.Prelude.Int.{pos, sub_ℕ}
use lamp_userspace.Strings.Text.{strlen, is_zero, strncmp, find_text, strstr}

abbrev pub Starts : List ℕ → List ℕ → Type 0
Starts h n = (rest : List ℕ) × (h ≡ n ++ rest)

-- No byte of a text is the terminator.
abbrev pub IsText : List ℕ → Type 0
IsText [] = Unit
IsText (c ∷ s) = (0 < c) × IsText s

-- `some r` is the rest of `h` from the first place where `n` stands; `none` says that there is no
-- such place.
abbrev pub FirstPlace : List ℕ → List ℕ → Option (List ℕ) → Type 0
FirstPlace h n none = (j : ℕ) → ¬ Starts (drop j h) n
FirstPlace h n (some r) =
    (k : ℕ) × (k ≤ length h)
    × (drop k h ≡ r)
    × Starts r n
    × ((j : ℕ) → j < k → ¬ Starts (drop j h) n)

pub differ : (c d : ℕ) → (c ≡ d → ⊥) → is_zero (sub_ℕ c d) ≡ false
differ c d h = ground arith

end_differs : (d : ℕ) (n : List ℕ) (k : ℕ) → 0 < d → is_zero (strncmp [] (d ∷ n) (suc k)) ≡ true → ⊥
unfolding strncmp
end_differs d n k h e = let unequal = differ 0 d (λ z. omega (arith, z, h)) in cc

strncmp-same :
    (c d : ℕ) (h n : List ℕ) (k : ℕ) → c ≡ d → strncmp (c ∷ h) (d ∷ n) (suc k) ≡ strncmp h n k
unfolding strncmp
strncmp-same c d h n k same = rw ((==_iff c d).1 same) refl

strncmp-other :
    (c d : ℕ) (h n : List ℕ) (k : ℕ)
    → (c ≡ d → ⊥)
    → is_zero (strncmp (c ∷ h) (d ∷ n) (suc k)) ≡ false
unfolding strncmp
strncmp-other c d h n k other = rw (==-false c d other) (differ c d other)

Starts-of_strncmp : (h n : List ℕ) → IsText n → is_zero (strncmp h n (strlen n)) ≡ true → Starts h n
unfolding strlen
Starts-of_strncmp h [] text e = (h, refl)
Starts-of_strncmp [] (d ∷ n) (positive, text) e = absurd (end_differs d n (strlen n) positive e)
Starts-of_strncmp (c ∷ h) (d ∷ n) (positive, text) e = elim (ℕ_discrete c d) [
  | yes same ↦
      let inner : is_zero (strncmp h n (strlen n)) ≡ true =
        ap is_zero (sym (strncmp-same c d h n (strlen n) same)) ∙ e in
      let (rest, there) = Starts-of_strncmp h n text inner in (rest, cc)
  | no other ↦ absurd (let unequal = strncmp-other c d h n (strlen n) other in cc)
]

strncmp_of_starts : (n rest : List ℕ) → strncmp (n ++ rest) n (strlen n) ≡ pos 0
unfolding strncmp strlen
strncmp_of_starts [] rest = refl
strncmp_of_starts (d ∷ n) rest = rw ((==_iff d d).1 refl) (strncmp_of_starts n rest)

not-Starts : (h n : List ℕ) → is_zero (strncmp h n (strlen n)) ≡ false → ¬ Starts h n
not-Starts h n e (rest, there) =
    let zero_here = strncmp_of_starts n rest in
    let same : is_zero (strncmp h n (strlen n)) ≡ is_zero (strncmp (n ++ rest) n (strlen n)) =
      ap (λ x. is_zero (strncmp x n (strlen n))) there in
    let found : is_zero (strncmp (n ++ rest) n (strlen n)) ≡ true = ap is_zero zero_here in cc

not_at_end : (n : List ℕ) → 0 < strlen n → ¬ Starts [] n
unfolding strlen
not_at_end [] h starts = absurd (omega (arith, h))
not_at_end (c ∷ n) h (rest, e) = cc

each_place : (P : ℕ → Type 0) → P 0 → ((j : ℕ) → P (suc j)) → (j : ℕ) → P j
each_place P first others zero = first
each_place P first others (suc j) = others j

-- A place behind the first byte.
later :
    (c : ℕ) (h n : List ℕ) (o : Option (List ℕ))
    → ¬ Starts (c ∷ h) n
    → FirstPlace h n o
    → FirstPlace (c ∷ h) n o
later c h n none here rest = each_place _ here rest
later c h n (some r) here (k, inside, there, starts, before) = (
  suc k,
  omega arith,
  there,
  starts,
  each_place (λ j. j < suc k → ¬ Starts (drop j (c ∷ h)) n) (λ l. here)
      (λ j l. before j (omega (arith, l))),
)

find_text_lem : (h n : List ℕ) → IsText n → 0 < strlen n → FirstPlace h n (find_text h n (strlen n))
unfolding find_text
find_text_lem [] n text some_bytes =
    each_place (λ j. ¬ Starts (drop j []) n) (not_at_end n some_bytes)
      (λ j. not_at_end n some_bytes)
find_text_lem (c ∷ h) n text some_bytes =
    elim (Bool-cases (is_zero (strncmp (c ∷ h) n (strlen n)))) [
      | inl here ↦ rw here (
        0,
        omega arith,
        refl,
        Starts-of_strncmp (c ∷ h) n text here,
        λ j l. absurd (omega (arith, l)),
      )
      | inr other ↦
          rw other (later c h n _ (not-Starts (c ∷ h) n other) (find_text_lem h n text some_bytes))
    ]

empty_needle : (n : List ℕ) → strlen n ≡ 0 → n ≡ []
unfolding strlen
empty_needle [] e = refl
empty_needle (c ∷ n) e = absurd (omega (arith, e))

-- `strstr` gives the rest of the text from the first place where the needle stands, the text itself for
-- an empty needle, and null only when the needle stands nowhere.
pub strstr_lem : (h n : List ℕ) → IsText n → FirstPlace h n (strstr h n)
unfolding strstr
strstr_lem h n text = elim (ℕ_discrete (strlen n) 0) [
  | yes empty ↦ rw ((==_iff (strlen n) 0).1 empty) (
    0,
    omega arith,
    refl,
    (h, ap (λ m. m ++ h) (sym (empty_needle n empty))),
    λ j l. absurd (omega (arith, l)),
  )
  | no other ↦ rw (==-false (strlen n) 0 other) (find_text_lem h n text (omega (arith, other)))
]
