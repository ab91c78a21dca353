-- ===== src/Stdlib/Env/Update.antt =====
-- What `setenv` and `putenv` do to the table.
use lamp_userspace.Prelude.{
  ℕ, ◌-◌, ◌<◌, ◌≡◌, ◌≢◌, ◌⊎◌, inl, inr, refl, ap, ◌∙◌, Bool, true, false, if◌then◌else◌, ◌&&◌, not,
  ◌+◌, List, [], ◌∷◌, ◌++◌, length, take, ==-false, ltb-true, Option, none, some, arith,
}
use lamp_userspace.Prelude.Int.{ℤ, pos}
use lamp_userspace.Strings.Text.{strlen, is_some}
use lamp_userspace.Stdlib.Env.{Environment, env_find, equals_sign, setenv, put_entry, putenv}
use lamp_userspace.Stdlib.Env.Entry.{
  NameBytes, IsName, strchr_value, value_in-entry, value_in-other, env_valid_name_lem,
}
use lamp_userspace.Stdlib.Env.Table.{
  value_of, Others, Place, value_of-append, and-false, env_find_lem, set-Cut, value_of-Cut,
  entry_other, first-none,
}

-- What `setenv` does with memory enough.
abbrev pub Stored : List ℕ → List ℕ → Environment → Option (ℤ × Environment) → Type 0
Stored name v env none = ⊥
Stored name v env (some (status, after)) =
    (status ≡ pos 0)
    × (value_of name after.environ ≡ some v)
    × Others name env.environ after.environ

-- The table can grow, or the name has an entry, which is then replaced.
abbrev pub HasPlace : List ℕ → Environment → Type 0
HasPlace name env = (env.on_heap ≡ true) ⊎ (value_of name env.environ ≢ none)

put_entry-Stored :
    (name v : List ℕ) (env : Environment) (o : Option ℕ)
    → NameBytes name
    → HasPlace name env
    → Place name env.environ o
    → Stored name v env (put_entry (name ++ (equals_sign ∷ v)) true env o)
put_entry-Stored name v env none bytes (inr there) p = absurd (there p)
put_entry-Stored name v env none bytes (inl heap) p = rw heap (
  refl,
  value_of-append name env.environ _ ∙ rw (p, value_in-entry name v) refl,
  λ other others ne.
      value_of-append other env.environ _
      ∙ rw (value_in-other name other v bytes others ne) (first-none _),
)
put_entry-Stored name v env (some i) bytes place p =
    let new : List ℕ = name ++ (equals_sign ∷ v) in
    (
      refl,
      ap (value_of name) (set-Cut name env.environ i p new)
          ∙ value_of-append name p.pre _
          ∙ rw (p.earlier, value_in-entry name v) refl,
      λ other others ne.
          ap (value_of other) (set-Cut name env.environ i p new)
          ∙ value_of-append other p.pre _
          ∙ rw
              (
                value_of-Cut name env.environ i p other,
                entry_other name env.environ i p other bytes others ne,
                value_in-other name other v bytes others ne,
              )
              refl,
    )

-- With room in the heap, and when the table is null or a block of the heap or the name has an
-- entry, `setenv` with the overwrite flag ends without a stray access and returns 0, then the
-- first entry of the name has the value, and the value of every other name is what it was.
pub setenv_lem :
    (name v : List ℕ) (env : Environment)
    → IsName name
    → HasPlace name env
    → Stored name v env (setenv true true (some name) (some v) true env)
unfolding setenv
setenv_lem name v env h place = rw (env_valid_name_lem name h) (
    rw (and-false (is_some (env_find name (strlen name) env.environ)))
      (put_entry-Stored name v env _ h.bytes place (env_find_lem name env.environ h.bytes)))

keep :
    (o : Option ℕ) (rest : Option (ℤ × Environment)) (env : Environment)
    → is_some o ≡ true
    → (if is_some o && not false then some (pos 0, env) else rest) ≡ some (pos 0, env)
keep none rest env e = cc
keep (some i) rest env e = refl

found :
    (name v : List ℕ) (entries : List (List ℕ)) (o : Option ℕ)
    → value_of name entries ≡ some v
    → Place name entries o
    → is_some o ≡ true
found name v entries none there p = cc
found name v entries (some i) there p = refl

-- Without the overwrite flag, `setenv` of a name that has a value returns 0 and changes nothing,
-- whatever `malloc` and `realloc` would answer.
pub setenv-keep :
    (name v w : List ℕ) (env : Environment) (allocates grows : Bool)
    → IsName name
    → value_of name env.environ ≡ some v
    → setenv allocates grows (some name) (some w) false env ≡ some (pos 0, env)
unfolding setenv
setenv-keep name v w env allocates grows h there = rw (env_valid_name_lem name h) (
    keep (env_find name (strlen name) env.environ) _ env
      (found name v env.environ _ there (env_find_lem name env.environ h.bytes)))

strlen-append : (s t : List ℕ) → strlen (s ++ t) ≡ strlen t + length s
unfolding strlen
strlen-append [] t = omega arith
strlen-append (c ∷ s) t = omega (arith, strlen-append s t)

take-append : (s t : List ℕ) → take (length s) (s ++ t) ≡ s
take-append [] t = refl
take-append (c ∷ s) t = ap (λ r. c ∷ r) (take-append s t)

-- Of a text `name=value` whose name has less than 128 bytes, `putenv` is `setenv` with the
-- overwrite flag.
pub putenv_lem :
    (allocates grows : Bool) (name v : List ℕ) (env : Environment)
    → IsName name
    → length name < 128
    → putenv allocates grows (name ++ (equals_sign ∷ v)) env
      ≡ setenv allocates grows (some name) (some v) true env
unfolding putenv
putenv_lem allocates grows name v env h short =
    rw (strchr_value (name ++ (equals_sign ∷ v)) name h.bytes (value_in-entry name v)) (
      let count : strlen (name ++ (equals_sign ∷ v)) - strlen (equals_sign ∷ v) ≡ length name =
        omega (arith, strlen-append name (equals_sign ∷ v)) in
      rw
        (
          count,
          take-append name (equals_sign ∷ v),
          ==-false (length name) 0 (λ e. omega (arith, e, h.some_bytes)),
          ltb-true (length name) 128 short,
        )
        refl)
