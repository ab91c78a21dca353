-- ===== src/Stdlib/Env/Remove.antt =====
-- What `unsetenv` does to the table.
use lamp_userspace.Prelude.{
  ℕ, ◌-◌, ◌≡◌, refl, ap, sym, ◌∙◌, Bool, true, false, ◌+◌, List, [], ◌∷◌, ◌++◌, Option, none, some,
  Option-cases, inl, inr, arith,
}
use lamp_userspace.Prelude.Int.{ℤ, pos}
use lamp_userspace.Strings.Text.{is_some}
use lamp_userspace.Stdlib.Env.{Environment, remove_at, unsetenv}
use lamp_userspace.Stdlib.Env.Entry.{NameBytes, IsName, value_in, env_valid_name_lem}
use lamp_userspace.Stdlib.Env.Table.{
  first, value_of, Others, Place, Cut, value_of-append, env_find_lem, shift_down-Cut, value_of-Cut,
  entry_other,
}

abbrev pub one_if : Bool → ℕ
one_if true = 1
one_if false = 0

pub count_of_name : List ℕ → List (List ℕ) → ℕ
count_of_name name [] = 0
count_of_name name (entry ∷ entries) =
    one_if (is_some (value_in name entry)) + count_of_name name entries

count_of_name-append :
    (name : List ℕ) (xs ys : List (List ℕ))
    → count_of_name name (xs ++ ys) ≡ count_of_name name xs + count_of_name name ys
unfolding count_of_name
count_of_name-append name [] ys = omega arith
count_of_name-append name (x ∷ xs) ys = omega (arith, count_of_name-append name xs ys)

count-none :
    (name : List ℕ) (xs : List (List ℕ)) → value_of name xs ≡ none → count_of_name name xs ≡ 0
unfolding count_of_name
count-none name [] e = refl
count-none name (x ∷ xs) e = elim (Option-cases (value_in name x)) [
  | inl other ↦
      rw other
        (omega (arith, count-none name xs (ap (λ o. first o (value_of name xs)) (sym other) ∙ e)))
  | inr (v, here) ↦ absurd (let both = ap (λ o. first o (value_of name xs)) (sym here) ∙ e in cc)
]

counted :
    (name : List ℕ) (entries : List (List ℕ)) (i : ℕ) (p : Cut name entries i)
    → count_of_name name (p.pre ++ p.post) ≡ count_of_name name entries - 1
unfolding count_of_name
counted name entries i p =
    let none_before = count-none name p.pre p.earlier in
    let one : one_if (is_some (value_in name p.entry)) ≡ 1 = rw p.here refl in
    let all : count_of_name name entries
        ≡ count_of_name name p.pre + (1 + count_of_name name p.post) =
      ap (count_of_name name) p.whole ∙ count_of_name-append name p.pre _ ∙ omega (arith, one) in
    omega (arith, all, none_before, count_of_name-append name p.pre p.post)

-- What `unsetenv` leaves.
abbrev pub Removed : List ℕ → Environment → ℤ × Environment → Type 0
Removed name env (status, after) =
    (status ≡ pos 0)
    × (count_of_name name after.environ ≡ count_of_name name env.environ - 1)
    × Others name env.environ after.environ

remove_at-Removed :
    (name : List ℕ) (env : Environment) (o : Option ℕ)
    → NameBytes name
    → Place name env.environ o
    → Removed name env (remove_at env o)
remove_at-Removed name env none bytes p =
    (refl, omega (arith, count-none name env.environ p), λ other others ne. refl)
remove_at-Removed name env (some i) bytes p = (
  refl,
  ap (count_of_name name) (shift_down-Cut name env.environ i p) ∙ counted name env.environ i p,
  λ other others ne.
      ap (value_of other) (shift_down-Cut name env.environ i p)
      ∙ value_of-append other p.pre p.post
      ∙ rw
          (
            value_of-Cut name env.environ i p other,
            entry_other name env.environ i p other bytes others ne,
          )
          refl,
)

-- `unsetenv` of a name returns 0, takes one entry of the name out of the table when there is one, and
-- leaves the value of every other name.
pub unsetenv_lem :
    (name : List ℕ) (env : Environment) → IsName name → Removed name env (unsetenv (some name) env)
unfolding unsetenv
unsetenv_lem name env h =
    rw (env_valid_name_lem name h)
      (remove_at-Removed name env _ h.bytes (env_find_lem name env.environ h.bytes))
