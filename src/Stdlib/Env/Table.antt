-- ===== src/Stdlib/Env/Table.antt =====
-- What `getenv`, `setenv` and `unsetenv` do to the table as a map from names to values.
use lamp_userspace.Prelude.{
  ℕ, suc, ◌≡◌, ◌≢◌, refl, ap, sym, ◌∙◌, Bool, true, false, ◌&&◌, List, [], ◌∷◌, ◌++◌, length,
  get_elem?, set, Option, none, some, Option-cases, inl, inr,
}
use lamp_userspace.Strings.Text.{strlen}
use lamp_userspace.Stdlib.Env.{
  Environment, next_index, env_find, value_part, step_behind, entry_at, getenv, shift_down,
}
use lamp_userspace.Stdlib.Env.Entry.{
  NameBytes, IsName, value_in, matches_lem, strchr_value, value_in-other, value_in_split,
  env_valid_name_lem,
}

abbrev pub first : Option (List ℕ) → Option (List ℕ) → Option (List ℕ)
first none o = o
first (some v) o = some v

pub and-false : (b : Bool) → (b && false) ≡ false
and-false true = refl
and-false false = refl

pub first-none : (o : Option (List ℕ)) → first o none ≡ o
first-none none = refl
first-none (some v) = refl

-- The value of a name: that of its first entry.
abbrev pub value_of : List ℕ → List (List ℕ) → Option (List ℕ)
value_of name [] = none
value_of name (entry ∷ entries) = first (value_in name entry) (value_of name entries)

pub value_of-append :
    (name : List ℕ) (xs ys : List (List ℕ))
    → value_of name (xs ++ ys) ≡ first (value_of name xs) (value_of name ys)
value_of-append name [] ys = refl
value_of-append name (x ∷ xs) ys = elim (Option-cases (value_in name x)) [
  | inl other ↦ rw (other) (value_of-append name xs ys)
  | inr (v, here) ↦ rw here refl
]

module _ (entry : List ℕ) (post : List (List ℕ)) where
  get_elem?-middle :
      (pre : List (List ℕ)) → get_elem? (pre ++ (entry ∷ post)) (length pre) ≡ some entry
  get_elem?-middle [] = refl
  get_elem?-middle (x ∷ pre) = get_elem?-middle pre

  set-middle :
      (pre : List (List ℕ)) (new : List ℕ)
      → set (pre ++ (entry ∷ post)) (length pre) new ≡ pre ++ (new ∷ post)
  set-middle [] new = refl
  set-middle (x ∷ pre) new = ap (λ xs. x ∷ xs) (set-middle pre new)

  shift_down-middle :
      (pre : List (List ℕ)) → shift_down (length pre) (pre ++ (entry ∷ post)) ≡ pre ++ post
  shift_down-middle [] = refl
  shift_down-middle (x ∷ pre) = ap (λ xs. x ∷ xs) (shift_down-middle pre)

-- The place that `env_find` gives cuts the table at the first entry of the name.
pub record Cut (name : List ℕ) (entries : List (List ℕ)) (i : ℕ) : Type 0 where
  pub pre : List (List ℕ)
  pub entry : List ℕ
  pub post : List (List ℕ)
  pub value : List ℕ
  pub whole : entries ≡ pre ++ (entry ∷ post)
  pub place : length pre ≡ i
  pub earlier : value_of name pre ≡ none
  pub here : value_in name entry ≡ some value

abbrev pub Place : List ℕ → List (List ℕ) → Option ℕ → Type 0
Place name entries none = value_of name entries ≡ none
Place name entries (some i) = Cut name entries i

Place-next :
    (name entry : List ℕ) (entries : List (List ℕ)) (o : Option ℕ)
    → value_in name entry ≡ none
    → Place name entries o
    → Place name (entry ∷ entries) (next_index o)
Place-next name entry entries none other p = rw other p
Place-next name entry entries (some i) other p = record {
  pre = entry ∷ p.pre;
  entry = p.entry;
  post = p.post;
  value = p.value;
  whole = ap (λ xs. entry ∷ xs) p.whole;
  place = ap suc p.place;
  earlier = rw other p.earlier;
  here = p.here;
}

pub env_find_lem :
    (name : List ℕ) (entries : List (List ℕ))
    → NameBytes name
    → Place name entries (env_find name (strlen name) entries)
unfolding env_find
env_find_lem name [] bytes = refl
env_find_lem name (entry ∷ entries) bytes = elim (Option-cases (value_in name entry)) [
  | inl other ↦
      rw (matches_lem entry name bytes, other)
        (Place-next name entry entries _ other (env_find_lem name entries bytes))
  | inr (v, here) ↦
      rw (matches_lem entry name bytes, here)
        record {
          pre = [];
          entry = entry;
          post = entries;
          value = v;
          whole = refl;
          place = refl;
          earlier = refl;
          here = here;
        }
]

module _ (name : List ℕ) (entries : List (List ℕ)) (i : ℕ) (p : Cut name entries i) where
  get_elem?-Cut : get_elem? entries i ≡ some p.entry
  get_elem?-Cut =
      let middle = get_elem?-middle p.entry p.post p.pre in
      let whole = p.whole in let place = p.place in cc

  pub set-Cut : (new : List ℕ) → set entries i new ≡ p.pre ++ (new ∷ p.post)
  set-Cut new =
      let middle = set-middle p.entry p.post p.pre new in
      let whole = p.whole in let place = p.place in cc

  pub shift_down-Cut : shift_down i entries ≡ p.pre ++ p.post
  shift_down-Cut =
      let middle = shift_down-middle p.entry p.post p.pre in
      let whole = p.whole in let place = p.place in cc

  pub value_of-Cut :
      (other : List ℕ)
      → value_of other entries
        ≡ first (value_of other p.pre) (first (value_in other p.entry) (value_of other p.post))
  value_of-Cut other = ap (value_of other) p.whole ∙ value_of-append other p.pre (p.entry ∷ p.post)

  pub value_of-here : value_of name entries ≡ some p.value
  value_of-here = value_of-Cut name ∙ rw (p.earlier, p.here) refl

  value_part-Cut : NameBytes name → value_part (get_elem? entries i) ≡ value_of name entries
  value_part-Cut bytes =
      ap value_part get_elem?-Cut
      ∙ (ap step_behind (strchr_value p.entry name bytes p.here) ∙ sym value_of-here)

  -- The entry has no other name.
  pub entry_other :
      (other : List ℕ)
      → NameBytes name
      → NameBytes other
      → name ≢ other
      → value_in other p.entry ≡ none
  entry_other other bytes others ne =
      ap (value_in other) (value_in_split name p.entry p.here)
      ∙ value_in-other name other p.value bytes others ne

value_part-Place :
    (name : List ℕ) (entries : List (List ℕ)) (o : Option ℕ)
    → NameBytes name
    → Place name entries o
    → value_part (entry_at entries o) ≡ value_of name entries
value_part-Place name entries none bytes p = sym p
value_part-Place name entries (some i) bytes p = value_part-Cut name entries i p bytes

-- `getenv` of a name gives the value of its first entry and null when there is none, and changes
-- nothing.
pub getenv_lem :
    (name : List ℕ) (env : Environment)
    → IsName name
    → getenv (some name) env ≡ (value_of name env.environ, env)
unfolding getenv
getenv_lem name env h = rw (env_valid_name_lem name h) (
    ap (λ o. (o, env))
      (value_part-Place name env.environ _ h.bytes (env_find_lem name env.environ h.bytes)))

-- The names other than `name` keep their values.
abbrev pub Others : List ℕ → List (List ℕ) → List (List ℕ) → Type 0
Others name before after =
    (other : List ℕ) → NameBytes other → name ≢ other → value_of other after ≡ value_of other before
