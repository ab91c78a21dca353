-- ===== src/Misc/Execvp.antt =====
-- lib/libc_syscalls.c, `execvp`. What the system does with a path is a parameter: `none` when the process
-- is replaced, or the error. `errno` is passed on.
pub mod Candidates
use lamp_userspace.Prelude.{
  ℕ, zero, suc, ◌+◌, ◌-◌, Bool, true, false, ltb, ◌==◌, if◌then◌else◌, List, [], ◌∷◌, ◌++◌, length,
  take, drop, Option, none, some,
}
use lamp_userspace.Prelude.Text.{codes}
use lamp_userspace.Strings.Text.{strchr, strlen, behind}

-- The path that replaces the process, or the value of `errno`.
pub data Exec : Type 0 where
  replaced : List ℕ → Exec
  failed : ℕ → Exec

abbrev pub enoent : ℕ
enoent = 2

abbrev pub efault : ℕ
efault = 14

abbrev pub tried : List ℕ → Option ℕ → Exec
tried path none = replaced path
tried path (some e) = failed e

-- The directory before `end`, and what follows `end`.
abbrev pub directory : List ℕ → Option (List ℕ) → List ℕ
directory path none = take (strlen path) path
directory path (some end) = take (length path - length end) path

abbrev pub next_path : List ℕ → Option (List ℕ) → List ℕ
next_path path none = drop (strlen path) path
next_path path (some end) = behind end

abbrev pub after_execve : List ℕ → Option ℕ → (ℕ → Exec) → Exec
after_execve full_path none more = replaced full_path
after_execve full_path (some e) more = if e == enoent then more e else failed e

-- One round of the loop, `more` being the rounds that follow.
abbrev pub search_round :
    (List ℕ → Option ℕ) → List ℕ → List ℕ → Option (List ℕ) → (List ℕ → ℕ → Exec) → ℕ → Exec
search_round execve file path end more errno =
    let dir = directory path end in
    if length dir == 0
    then more (drop 1 path) errno
    else if ltb 256 (length dir + 1 + strlen file + 1)
    then more (next_path path end) errno
    else after_execve (dir ++ (b'/' ∷ file)) (execve (dir ++ (b'/' ∷ file)))
        (more (next_path path end))

-- The loop; every round shortens the path, so its length is fuel enough.
pub search_path : (List ℕ → Option ℕ) → List ℕ → ℕ → List ℕ → ℕ → Exec
search_path execve file fuel [] errno = failed errno
search_path execve file zero (c ∷ s) errno = failed errno
search_path execve file (suc fuel) (c ∷ s) errno =
    search_round execve file (c ∷ s) (strchr (c ∷ s) b':') (search_path execve file fuel) errno

abbrev pub or_bin : Option (List ℕ) → List ℕ
or_bin none = codes "/bin"
or_bin (some path) = path

abbrev pub search_for : (List ℕ → Option ℕ) → List ℕ → Option (List ℕ) → Option (List ℕ) → ℕ → Exec
search_for execve file (some slash) path_env errno = tried file (execve file)
search_for execve file none path_env errno =
    let path = or_bin path_env in search_path execve file (length path) path errno

-- `path_env` is what `getenv` finds.
pub execvp : (List ℕ → Option ℕ) → Option (List ℕ) → Option (List ℕ) → ℕ → Exec
execvp execve none path_env errno = failed efault
execvp execve (some file) path_env errno = search_for execve file (strchr file b'/') path_env errno
