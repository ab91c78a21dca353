-- ===== src/Stdlib/Env/Tests.antt =====
-- The functions on the environment at a concrete table.
use lamp_userspace.Prelude.{
  ℕ, ◌≡◌, ◌≢◌, refl, inr, true, false, List, [], ◌∷◌, Option, none, some, arith,
}
use lamp_userspace.Prelude.Int.{ℤ, negsuc}
use lamp_userspace.Prelude.Text.{codes, after_prefix}
use lamp_userspace.Stdlib.{einval, enomem}
use lamp_userspace.Strings.Text.{strchr, strncmp, strlen}
use lamp_userspace.Stdlib.Env.{
  Environment, env_valid_name, env_find, env_name_matches, getenv, setenv, unsetenv,
}
use lamp_userspace.Stdlib.Env.Entry.{IsName}
use lamp_userspace.Stdlib.Env.Table.{value_of, getenv_lem}
use lamp_userspace.Stdlib.Env.Update.{Stored, setenv_lem}
use lamp_userspace.Stdlib.Env.Remove.{Removed, unsetenv_lem}
use lamp_userspace.Stdlib.Env.Failure.{Ended, setenv-error}

abbrev environment : Environment
environment = record {
  environ = codes "HOME=/root" ∷ codes "PATH=/bin" ∷ codes "HOME=/" ∷ [];
  on_heap = false;
  errno = 0;
}

abbrev home : List ℕ
home = codes "HOME"

home-IsName : IsName home
home-IsName = record {
  bytes = (
    omega arith,
    λ e. omega (arith, e),
    (
      omega arith,
      λ e. omega (arith, e),
      (omega arith, λ e. omega (arith, e), (omega arith, λ e. omega (arith, e), tt)),
    ),
  );
  some_bytes = omega arith;
}

getenv_lem_example :
    getenv (some home) environment ≡ (value_of home environment.environ, environment)
getenv_lem_example = getenv_lem home environment home-IsName

home_there : value_of home environment.environ ≢ none
unfolding after_prefix
home_there e = cc

setenv_lem_example :
    Stored home
      (codes "/tmp")
      environment
      (setenv true true (some home) (some (codes "/tmp")) true environment)
setenv_lem_example = setenv_lem home (codes "/tmp") environment home-IsName (inr home_there)

setenv-error_example :
    Ended environment (setenv false true (some home) (some (codes "/tmp")) true environment)
setenv-error_example = setenv-error false true (some home) (some (codes "/tmp")) true environment

abbrev failed_call : Option (ℤ × Environment)
failed_call = setenv false true (some home) (some (codes "/tmp")) true environment

failed_run : failed_call ≡ some (negsuc 0, record environment { errno = enomem })
unfolding setenv env_valid_name env_find env_name_matches strchr strncmp strlen
failed_run = refl

-- A new name in the table that the program starts with is a stray access.
foreign_run : setenv true true (some (codes "TERM")) (some (codes "vt")) true environment ≡ none
unfolding setenv env_valid_name env_find env_name_matches strchr strncmp strlen
foreign_run = refl

unsetenv_lem_example : Removed home environment (unsetenv (some home) environment)
unsetenv_lem_example = unsetenv_lem home environment home-IsName

-- After `unsetenv` of a name that stands twice the second value shows.
unset_once : (getenv (some home) (unsetenv (some home) environment).1).0 ≡ some (codes "/")
unfolding getenv unsetenv env_valid_name env_find env_name_matches strchr strncmp strlen
unset_once = refl

bad_name :
    setenv true true (some (codes "A=B")) (some []) true environment
    ≡ some (negsuc 0, record environment { errno = einval })
unfolding setenv env_valid_name strchr
bad_name = refl
