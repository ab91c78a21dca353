-- ===== src/Stdlib/Env/Failure.antt =====
-- How a call of `setenv` ends, and what a failed one leaves.
use lamp_userspace.Prelude.{
  ℕ, ◌≡◌, refl, Bool, true, false, if◌then◌else◌, ◌&&◌, not, ◌⊎◌, List, ◌∷◌, ◌++◌, Option, none,
  some, inl, inr,
}
use lamp_userspace.Prelude.Int.{ℤ, pos, negsuc}
use lamp_userspace.Strings.Text.{strlen, is_some}
use lamp_userspace.Stdlib.{enomem, einval}
use lamp_userspace.Stdlib.Env.{
  Environment, env_find, equals_sign, env_valid_name, setenv, set_valid, put_entry, grow_table,
}

-- A failed call: an error number, and the table as it was.
abbrev pub Unharmed : Environment → Environment → Type 0
Unharmed env after =
    (after.environ ≡ env.environ)
    × (after.on_heap ≡ env.on_heap)
    × ((after.errno ≡ einval) ⊎ (after.errno ≡ enomem))

-- The ends of a call: a stray access, 0, or -1 with an error.
abbrev pub Ended : Environment → Option (ℤ × Environment) → Type 0
Ended env none = env.on_heap ≡ false
Ended env (some (status, after)) = (status ≡ pos 0) ⊎ ((status ≡ negsuc 0) × Unharmed env after)

grow_table-Ended :
    (entry : List ℕ) (grows : Bool) (env : Environment) (heap : Bool)
    → env.on_heap ≡ heap
    → Ended env (grow_table entry grows env heap)
grow_table-Ended entry grows env false e = e
grow_table-Ended entry true env true e = inl refl
grow_table-Ended entry false env true e = inr (refl, (refl, refl, inr refl))

put_entry-Ended :
    (entry : List ℕ) (grows : Bool) (env : Environment) (o : Option ℕ)
    → Ended env (put_entry entry grows env o)
put_entry-Ended entry grows env (some i) = inl refl
put_entry-Ended entry grows env none = grow_table-Ended entry grows env env.on_heap refl

decided-Ended :
    (b : Bool) (env : Environment) (r : Option (ℤ × Environment))
    → Ended env r
    → Ended env (if b then some (pos 0, env) else r)
decided-Ended true env r h = inl refl
decided-Ended false env r h = h

set_valid-Ended :
    (allocates grows : Bool) (value : Option (List ℕ)) (overwrite : Bool) (env : Environment)
    (name : Option (List ℕ))
    → Ended env (set_valid allocates grows value overwrite env name)
set_valid-Ended allocates grows value overwrite env none = inr (refl, (refl, refl, inl refl))
set_valid-Ended allocates grows none overwrite env (some n) = inr (refl, (refl, refl, inl refl))
set_valid-Ended false grows (some v) overwrite env (some n) =
    decided-Ended (is_some (env_find n (strlen n) env.environ) && not overwrite) env _
      (inr (refl, (refl, refl, inr refl)))
set_valid-Ended true grows (some v) overwrite env (some n) =
    decided-Ended (is_some (env_find n (strlen n) env.environ) && not overwrite) env _
      (put_entry-Ended (n ++ (equals_sign ∷ v)) grows env _)

-- Every call of `setenv` returns 0, or returns -1, leaves the table as it was and sets `errno` to
-- EINVAL or ENOMEM, or makes a stray access, and that only when the table is neither null nor a
-- block of the heap; whatever the arguments and the room in the heap.
pub setenv-error :
    (allocates grows : Bool) (name value : Option (List ℕ)) (overwrite : Bool) (env : Environment)
    → Ended env (setenv allocates grows name value overwrite env)
unfolding setenv
setenv-error allocates grows name value overwrite env =
    set_valid-Ended allocates grows value overwrite env (env_valid_name name)
