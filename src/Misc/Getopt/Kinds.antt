-- ===== src/Misc/Getopt/Kinds.antt =====
-- The option characters as the code finds them in `optstring`.
use lamp_userspace.Prelude.{
  ℕ, ◌≡◌, refl, Bool, true, false, u8, ◌==◌, Bool-cases, inl, inr, List, [], ◌∷◌, Option, none,
  some,
}
use lamp_userspace.Strings.Text.{strchr}
use lamp_userspace.Misc.Getopt.{
  Kind, unknown, flag, with_argument, spec_kind, found_kind, kind_of, missing,
}
use lamp_userspace.Misc.Getopt.Options.{starts_with_colon, declared, takes_argument, lacking}

abbrev pub kind_as : Option Bool → Kind
kind_as none = unknown
kind_as (some false) = flag
kind_as (some true) = with_argument

spec_kind_lem : (x : ℕ) (s : List ℕ) → spec_kind (x ∷ s) ≡ kind_as (some (starts_with_colon s))
spec_kind_lem x [] = refl
spec_kind_lem x (d ∷ s) = elim (Bool-cases (d == b':')) [ inl y ↦ rw y refl | inr n ↦ rw n refl ]

found_kind_lem :
    (c : ℕ) (optstring : List ℕ)
    → (c == b':') ≡ false
    → found_kind c (strchr optstring c) ≡ kind_as (declared optstring c)
unfolding strchr
found_kind_lem c [] plain = elim (Bool-cases (c == 0)) [
  | inl y ↦ rw (y, plain) refl
  | inr n ↦ rw n refl
]
found_kind_lem c (x ∷ s) plain = elim (Bool-cases (x == u8 c)) [
  | inl here ↦ rw (here, plain) (spec_kind_lem x s)
  | inr later ↦ rw later (found_kind_lem c s plain)
]

found_kind_colon : (c : ℕ) (o : Option (List ℕ)) → (c == b':') ≡ true → found_kind c o ≡ unknown
found_kind_colon c none colon = refl
found_kind_colon c (some spec) colon = rw colon refl

pub kind_of_lem :
    (optstring : List ℕ) (c : ℕ) → kind_of optstring c ≡ kind_as (takes_argument optstring c)
unfolding kind_of
kind_of_lem optstring c = elim (Bool-cases (c == b':')) [
  | inl colon ↦ rw colon (found_kind_colon c (strchr optstring c) colon)
  | inr plain ↦ rw plain (found_kind_lem c optstring plain)
]

pub missing_lem : (optstring : List ℕ) → missing optstring ≡ lacking optstring
missing_lem [] = refl
missing_lem (c ∷ s) = refl
