-- ===== src/Stdlib/Env.antt =====
-- lib/libc_stdlib.c, the environment. The table is the list of its entries before the null
-- pointer, each a text; a null table is empty. Whether the table is null or a block of the heap,
-- and not the one that the program starts with or the static one of `clearenv`, is a field. A
-- null argument is `none`. Whether the heap has room for `malloc` and `realloc` is an argument;
-- what they do with the bytes is in Stdlib.Heap, and the copies into their blocks are the texts
-- that are copied.
pub mod Entry
pub mod Table
pub mod Update
pub mod Remove
pub mod Failure
mod Tests
use lamp_userspace.Prelude.{
  ℕ, zero, suc, ◌+◌, ◌-◌, Bool, true, false, not, ◌&&◌, ◌||◌, ◌==◌, ltb, if◌then◌else◌, List, [],
  ◌∷◌, ◌++◌, length, take, drop, get_elem?, get_or, set, Option, none, some,
}
use lamp_userspace.Prelude.Int.{ℤ, pos, negsuc}
use lamp_userspace.Strings.Text.{strlen, strncmp, strchr, is_zero, is_some, behind}
use lamp_userspace.Stdlib.{enomem, einval}

pub record Environment : Type 0 where
  pub environ : List (List ℕ)
  pub on_heap : Bool
  pub errno : ℕ

abbrev pub equals_sign : ℕ
equals_sign = b'='

pub env_name_matches : List ℕ → List ℕ → ℕ → Bool
env_name_matches entry name name_len =
    is_zero (strncmp entry name name_len) && get_or entry name_len 0 == equals_sign

abbrev pub next_index : Option ℕ → Option ℕ
next_index none = none
next_index (some i) = some (suc i)

-- `none` for the index -1.
pub env_find : List ℕ → ℕ → List (List ℕ) → Option ℕ
env_find name name_len [] = none
env_find name name_len (entry ∷ entries) =
    if env_name_matches entry name name_len
    then some 0
    else next_index (env_find name name_len entries)

abbrev pub fail : ℕ → Environment → ℤ × Environment
fail error env = (negsuc 0, record env { errno = error })

-- The name, when it is one.
pub env_valid_name : Option (List ℕ) → Option (List ℕ)
env_valid_name none = none
env_valid_name (some []) = none
env_valid_name (some (c ∷ s)) = if is_some (strchr (c ∷ s) equals_sign) then none else some (c ∷ s)

abbrev pub step_behind : Option (List ℕ) → Option (List ℕ)
step_behind none = none
step_behind (some s) = some (behind s)

-- `strchr(entry, '=') + 1`; the entry is one that matched.
abbrev pub value_part : Option (List ℕ) → Option (List ℕ)
value_part none = none
value_part (some entry) = step_behind (strchr entry equals_sign)

abbrev pub entry_at : List (List ℕ) → Option ℕ → Option (List ℕ)
entry_at entries none = none
entry_at entries (some i) = get_elem? entries i

-- `getenv` with the answer of `env_valid_name`; so for `setenv` and `unsetenv` below.
abbrev pub get_valid : Environment → Option (List ℕ) → Option (List ℕ) × Environment
get_valid env none = (none, record env { errno = einval })
get_valid env (some n) =
    (value_part (entry_at env.environ (env_find n (strlen n) env.environ)), env)

pub getenv : Option (List ℕ) → Environment → Option (List ℕ) × Environment
getenv name env = get_valid env (env_valid_name name)

-- `realloc(environ, ...)` and the new entry behind the others, with the last argument `on_heap`.
-- Of a block of the heap `realloc` keeps the bytes or gives a null pointer; of any other table it
-- reads what stands before it as a header, which is a stray access.
abbrev pub grow_table : List ℕ → Bool → Environment → Bool → Option (ℤ × Environment)
grow_table entry grows env false = none
grow_table entry true env true = some (pos 0, record env { environ = env.environ ++ (entry ∷ []) })
grow_table entry false env true = some (fail enomem env)

-- The end of `setenv`, from the place of the name on.
abbrev pub put_entry : List ℕ → Bool → Environment → Option ℕ → Option (ℤ × Environment)
put_entry entry grows env (some i) = some (pos 0, record env { environ = set env.environ i entry })
put_entry entry grows env none = grow_table entry grows env env.on_heap

abbrev pub set_valid :
    Bool → Bool → Option (List ℕ) → Bool → Environment → Option (List ℕ) → Option (ℤ × Environment)
set_valid allocates grows value overwrite env none = some (fail einval env)
set_valid allocates grows none overwrite env (some n) = some (fail einval env)
set_valid allocates grows (some v) overwrite env (some n) =
    let index = env_find n (strlen n) env.environ in
    if is_some index && not overwrite
    then some (pos 0, env)
    else if not allocates
    then some (fail enomem env)
    else put_entry (n ++ (equals_sign ∷ v)) grows env index

-- `none` is a stray access; so for `putenv`.
pub setenv :
    Bool → Bool → Option (List ℕ) → Option (List ℕ) → Bool → Environment → Option (ℤ × Environment)
setenv allocates grows name value overwrite env =
    set_valid allocates grows value overwrite env (env_valid_name name)

abbrev pub put_from :
    Bool → Bool → List ℕ → Environment → Option (List ℕ) → Option (ℤ × Environment)
put_from allocates grows string env none = some (fail einval env)
put_from allocates grows string env (some equals) =
    let name_len = strlen string - strlen equals in
    if name_len == 0 || not (ltb name_len 128)
    then some (fail einval env)
    else setenv allocates grows (some (take name_len string)) (some (behind equals)) true env

pub putenv : Bool → Bool → List ℕ → Environment → Option (ℤ × Environment)
putenv allocates grows string env = put_from allocates grows string env (strchr string equals_sign)

-- `for (; index < count; index++) environ[index] = environ[index + 1];`
abbrev pub shift_down : ℕ → List (List ℕ) → List (List ℕ)
shift_down i [] = []
shift_down zero (entry ∷ entries) = entries
shift_down (suc i) (entry ∷ entries) = entry ∷ shift_down i entries

abbrev pub remove_at : Environment → Option ℕ → ℤ × Environment
remove_at env none = (pos 0, env)
remove_at env (some i) = (pos 0, record env { environ = shift_down i env.environ })

abbrev pub unset_valid : Environment → Option (List ℕ) → ℤ × Environment
unset_valid env none = fail einval env
unset_valid env (some n) = remove_at env (env_find n (strlen n) env.environ)

pub unsetenv : Option (List ℕ) → Environment → ℤ × Environment
unsetenv name env = unset_valid env (env_valid_name name)

pub clearenv : Environment → ℤ × Environment
clearenv env = (pos 0, record env { environ = []; on_heap = false })
