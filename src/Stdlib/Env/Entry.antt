-- ===== src/Stdlib/Env/Entry.antt =====
-- One entry `name=value` of the environment.
use lamp_userspace.Prelude.{
  ℕ, ◌<◌, ◌≡◌, ◌≢◌, refl, sym, ◌∙◌, Bool, true, false, if◌then◌else◌, ◌==◌, List, [], ◌∷◌, ◌++◌,
  length, Option, none, some, arith, ==_iff, ==-false,
}
use native.Mathlib.Decide.{ℕ_discrete}
use lamp_userspace.Prelude.Text.{after_prefix}
use lamp_userspace.Strings.Text.{strlen, is_some, strncmp, strchr}
use lamp_userspace.Strings.Text.Search.{differ}
use lamp_userspace.Stdlib.Env.{env_name_matches, equals_sign, env_valid_name}

-- A byte of a name: neither the terminator nor the equals sign.
abbrev pub NameBytes : List ℕ → Type 0
NameBytes [] = Unit
NameBytes (c ∷ s) = (0 < c) × (c ≢ equals_sign) × NameBytes s

pub record IsName (name : List ℕ) : Type 0 where
  pub bytes : NameBytes name
  pub some_bytes : 0 < length name

-- The value of an entry of the name.
abbrev pub value_in : List ℕ → List ℕ → Option (List ℕ)
value_in name entry = after_prefix (name ++ (equals_sign ∷ [])) entry

pub matches_lem :
    (entry name : List ℕ)
    → NameBytes name
    → env_name_matches entry name (strlen name) ≡ is_some (value_in name entry)
unfolding env_name_matches strncmp strlen after_prefix
matches_lem [] [] h = refl
matches_lem (c ∷ entry) [] h = ground arith
matches_lem [] (d ∷ name) (positive, other, rest) =
    rw (differ 0 d (λ e. omega (arith, e, positive))) refl
matches_lem (c ∷ entry) (d ∷ name) (positive, other, rest) = elim (ℕ_discrete c d) [
  | yes same ↦ rw ((==_iff c d).1 same, (==_iff d c).1 (sym same)) (matches_lem entry name rest)
  | no differs ↦
      rw (==-false c d differs, ==-false d c (λ e. differs (sym e))) (rw (differ c d differs) refl)
]

if_some :
    {A : Type 0} (b : Bool) (o : Option A) {v : A}
    → (if b then o else none) ≡ some v
    → (b ≡ true) × (o ≡ some v)
if_some true o e = (refl, e)
if_some false o e = cc

pub strchr_value :
    (entry name : List ℕ) {v : List ℕ}
    → NameBytes name
    → value_in name entry ≡ some v
    → strchr entry equals_sign ≡ some (equals_sign ∷ v)
unfolding after_prefix strchr
strchr_value [] [] h e = cc
strchr_value (c ∷ entry) [] {v} h e =
    let (same, rest) = if_some (equals_sign == c) (some entry) e in
    let equal : equals_sign ≡ c = (==_iff equals_sign c).0 same in
    rw ((==_iff c equals_sign).1 (sym equal)) cc
strchr_value [] (d ∷ name) h e = cc
strchr_value (c ∷ entry) (d ∷ name) {v} (positive, other, bytes) e =
    let (same, rest) = if_some (d == c) (value_in name entry) e in
    let equal : d ≡ c = (==_iff d c).0 same in
    rw (==-false c equals_sign (λ e2. other (equal ∙ e2))) (strchr_value entry name bytes rest)

pub value_in-entry : (name v : List ℕ) → value_in name (name ++ (equals_sign ∷ v)) ≡ some v
unfolding after_prefix
value_in-entry [] v = refl
value_in-entry (c ∷ name) v = rw ((==_iff c c).1 refl) (value_in-entry name v)

pub value_in_split :
    (name entry : List ℕ) {v : List ℕ}
    → value_in name entry ≡ some v
    → entry ≡ name ++ (equals_sign ∷ v)
unfolding after_prefix
value_in_split [] [] e = cc
value_in_split [] (c ∷ entry) e =
    let (same, rest) = if_some (equals_sign == c) (some entry) e in
    let equal : equals_sign ≡ c = (==_iff equals_sign c).0 same in cc
value_in_split (d ∷ name) [] e = cc
value_in_split (d ∷ name) (c ∷ entry) e =
    let (same, rest) = if_some (d == c) (value_in name entry) e in
    let equal : d ≡ c = (==_iff d c).0 same in let inner = value_in_split name entry rest in cc

-- An entry has one name.
pub value_in-other :
    (a b v : List ℕ)
    → NameBytes a
    → NameBytes b
    → a ≢ b
    → value_in b (a ++ (equals_sign ∷ v)) ≡ none
unfolding after_prefix
value_in-other [] [] v ha hb ne = absurd (ne refl)
value_in-other [] (d ∷ b) v ha (positive, other, hb) ne = rw (==-false d equals_sign other) refl
value_in-other (c ∷ a) [] v (positive, other, ha) hb ne =
    rw (==-false equals_sign c (λ e. other (sym e))) refl
value_in-other (c ∷ a) (d ∷ b) v (_, _, ha) (_, _, hb) ne = elim (ℕ_discrete d c) [
  | yes same ↦ rw ((==_iff d c).1 same) (value_in-other a b v ha hb (λ e. ne cc))
  | no differs ↦ rw (==-false d c differs) refl
]

pub no_equals : (s : List ℕ) → NameBytes s → strchr s equals_sign ≡ none
unfolding strchr
no_equals [] h = refl
no_equals (c ∷ s) (positive, other, rest) = rw (==-false c equals_sign other) (no_equals s rest)

pub env_valid_name_lem : (name : List ℕ) → IsName name → env_valid_name (some name) ≡ some name
unfolding env_valid_name
env_valid_name_lem [] h = absurd (omega (arith, h.some_bytes))
env_valid_name_lem (c ∷ s) h = rw (no_equals (c ∷ s) h.bytes) refl
