-- ===== src/Misc/Execvp/Candidates.antt =====
-- `execvp` tries the directories of the path in their order.
use lamp_userspace.Prelude.{
  ℕ, zero, suc, ◌+◌, ◌≤◌, ◌<◌, ◌≡◌, ◌≢◌, refl, ap, sym, ◌∙◌, ltb, ◌==◌, if◌then◌else◌, List, [],
  ◌∷◌, ◌++◌, length, length-append, take, drop, Option, none, some, arith, Bool-cases, inl, inr,
  ==-false, ==_iff,
}
use mathlib.Core.List.{append-nil}
use native.Mathlib.Decide.{ℕ_discrete}
use lamp_userspace.Prelude.Text.{codes}
use lamp_userspace.Strings.Text.{strchr, strlen}
use lamp_userspace.Misc.Execvp.{
  Exec, failed, replaced, enoent, directory, next_path, after_execve, search_round, search_path,
  or_bin, search_for, execvp,
}

-- The parts of a path between its colons.
abbrev pub extend : ℕ → List (List ℕ) → List (List ℕ)
extend c [] = (c ∷ []) ∷ []
extend c (dir ∷ dirs) = (c ∷ dir) ∷ dirs

abbrev pub directories : List ℕ → List (List ℕ)
directories [] = [] ∷ []
directories (c ∷ s) = if c == b':' then [] ∷ directories s else extend c (directories s)

-- The paths to try: empty directories and names of more than 255 bytes are left out.
abbrev pub candidates : List ℕ → List (List ℕ) → List (List ℕ)
candidates file [] = []
candidates file (dir ∷ dirs) =
    if length dir == 0
    then candidates file dirs
    else if ltb 256 (length dir + 1 + length file + 1)
    then candidates file dirs
    else (dir ++ (b'/' ∷ file)) ∷ candidates file dirs

-- Each path in turn while the error is that there is no such file.
abbrev pub attempt : (List ℕ → Option ℕ) → List (List ℕ) → ℕ → Exec
attempt execve [] errno = failed errno
attempt execve (path ∷ paths) errno =
    let later = attempt execve paths enoent in
    elim (execve path) [ none ↦ replaced path | some e ↦ if e == enoent then later else failed e ]

-- The directories of `PATH`, or /bin when it is not set.
abbrev pub search_list : Option (List ℕ) → List (List ℕ)
search_list none = codes "/bin" ∷ []
search_list (some path) = directories path

-- A path is a directory with no colon, and the end or a colon and another path.
data Split : List ℕ → Type 0 where
  whole : (dir : List ℕ) → strchr dir b':' ≡ none → directories dir ≡ dir ∷ [] → Split dir
  colon :
      (dir rest : List ℕ)
      → strchr (dir ++ (b':' ∷ rest)) b':' ≡ some (b':' ∷ rest)
      → directories (dir ++ (b':' ∷ rest)) ≡ dir ∷ directories rest
      → Split (dir ++ (b':' ∷ rest))

Split-cons : (c : ℕ) (s : List ℕ) → c ≢ b':' → Split s → Split (c ∷ s)
unfolding strchr
Split-cons c s other (whole dir e d) =
    whole (c ∷ dir) (rw (==-false c b':' other) e) (rw (==-false c b':' other, d) refl)
Split-cons c s other (colon dir rest e d) =
    colon (c ∷ dir) rest (rw (==-false c b':' other) e) (rw (==-false c b':' other, d) refl)

Split-cases : (s : List ℕ) → Split s
unfolding strchr
Split-cases [] = whole [] refl refl
Split-cases (c ∷ s) = elim (ℕ_discrete c b':') [
  | yes e ↦ rw e (colon [] s refl refl)
  | no other ↦ Split-cons c s other (Split-cases s)
]

strlen-length : (s : List ℕ) → strlen s ≡ length s
unfolding strlen
strlen-length [] = refl
strlen-length (c ∷ s) = ap suc (strlen-length s)

take-length : (xs ys : List ℕ) → take (length xs) (xs ++ ys) ≡ xs
take-length [] ys = refl
take-length (x ∷ xs) ys = ap (λ t. x ∷ t) (take-length xs ys)

drop-length : (xs : List ℕ) → drop (length xs) xs ≡ []
drop-length [] = refl
drop-length (x ∷ xs) = drop-length xs

directory_colon : (dir rest : List ℕ) → directory (dir ++ (b':' ∷ rest)) (some (b':' ∷ rest)) ≡ dir
directory_colon dir rest =
    ap (λ (n : ℕ). take n (dir ++ (b':' ∷ rest))) {y = length dir}
      (omega (arith, length-append dir (b':' ∷ rest)))
    ∙ take-length dir (b':' ∷ rest)

directory_whole : (dir : List ℕ) → directory dir none ≡ dir
directory_whole dir =
    ap (λ (n : ℕ). take n dir) (strlen-length dir)
    ∙ (ap (take (length dir)) (sym (append-nil dir)) ∙ take-length dir [])

next_whole : (dir : List ℕ) → next_path dir none ≡ []
next_whole dir = ap (λ (n : ℕ). drop n dir) (strlen-length dir) ∙ drop-length dir

module _ (execve : List ℕ → Option ℕ) (file : List ℕ) where
  -- The rounds that follow try these directories.
  abbrev Tries : (ℕ → Exec) → List (List ℕ) → Type 0
  Tries more dirs = (errno : ℕ) → more errno ≡ attempt execve (candidates file dirs) errno

  after_execve_lem :
      (path : List ℕ) (o : Option ℕ) (more : ℕ → Exec) (dirs : List (List ℕ))
      → Tries more dirs
      → after_execve path o more ≡ elim o [
        | none ↦ replaced path
        | some e ↦ if e == enoent then attempt execve (candidates file dirs) enoent else failed e
      ]
  after_execve_lem path none more dirs h = refl
  after_execve_lem path (some e) more dirs h = elim (Bool-cases (e == enoent)) [
    | inl y ↦ rw y (ap more ((==_iff e enoent).0 y) ∙ h enoent)
    | inr n ↦ rw n refl
  ]

  -- A directory that is not empty.
  abbrev try_directory : List ℕ → (ℕ → Exec) → ℕ → Exec
  try_directory dir more errno =
      if ltb 256 (length dir + 1 + strlen file + 1)
      then more errno
      else after_execve (dir ++ (b'/' ∷ file)) (execve (dir ++ (b'/' ∷ file))) more

  try_directory_lem :
      (c : ℕ) (d : List ℕ) (more : ℕ → Exec) (dirs : List (List ℕ))
      → Tries more dirs
      → Tries (try_directory (c ∷ d) more) ((c ∷ d) ∷ dirs)
  try_directory_lem c d more dirs h errno =
      rw (strlen-length file, ==-false (suc (length d)) 0 (λ e. omega (arith, e)))
        (elim (Bool-cases (ltb 256 (length (c ∷ d) + 1 + length file + 1))) [
          | inl long ↦ rw long (h errno)
          | inr fits ↦ rw fits (
              after_execve_lem ((c ∷ d) ++ (b'/' ∷ file)) (execve ((c ∷ d) ++ (b'/' ∷ file))) more
                dirs h)
        ])

  round_empty :
      (path : List ℕ) (end : Option (List ℕ)) (more : List ℕ → ℕ → Exec) (errno : ℕ)
      → directory path end ≡ []
      → search_round execve file path end more errno ≡ more (drop 1 path) errno
  round_empty path end more errno e = rw e refl

  round_directory :
      (path : List ℕ) (end : Option (List ℕ)) (more : List ℕ → ℕ → Exec) (errno c : ℕ)
      (s next : List ℕ)
      → directory path end ≡ c ∷ s
      → next_path path end ≡ next
      → search_round execve file path end more errno ≡ try_directory (c ∷ s) (more next) errno
  round_directory path end more errno c s next e f =
      rw (e, f, ==-false (suc (length s)) 0 (λ z. omega (arith, z))) refl

  search_round_lem :
      (path : List ℕ) (more : List ℕ → ℕ → Exec)
      → 0 < length path
      → Split path
      → ((t : List ℕ) → length t < length path → Tries (more t) (directories t))
      → Tries (search_round execve file path (strchr path b':') more) (directories path)
  search_round_lem path more nonempty (whole [] e d) h errno = elim nonempty [ ]
  search_round_lem path more nonempty (whole (c ∷ s) e d) h errno =
      ap (λ o. search_round execve file (c ∷ s) o more errno) e
      ∙ (round_directory (c ∷ s) none more errno c s [] (directory_whole (c ∷ s))
            (next_whole (c ∷ s))
          ∙ (try_directory_lem c s (more []) (directories []) (h [] (omega arith)) errno
              ∙ ap (λ dirs. attempt execve (candidates file dirs) errno) (sym d)))
  search_round_lem path more nonempty (colon [] rest e d) h errno =
      ap (λ o. search_round execve file (b':' ∷ rest) o more errno) e
      ∙ (round_empty (b':' ∷ rest) (some (b':' ∷ rest)) more errno (directory_colon [] rest)
          ∙ h rest (omega arith) errno)
  search_round_lem path more nonempty (colon (c ∷ s) rest e d) h errno =
      ap (λ o. search_round execve file ((c ∷ s) ++ (b':' ∷ rest)) o more errno) e
      ∙ (round_directory ((c ∷ s) ++ (b':' ∷ rest)) (some (b':' ∷ rest)) more errno c s rest
            (directory_colon (c ∷ s) rest) refl
          ∙ (try_directory_lem c s (more rest) (directories rest)
                (h rest (omega (arith, length-append s (b':' ∷ rest)))) errno
              ∙ ap (λ dirs. attempt execve (candidates file dirs) errno) (sym d)))

  search_path_lem :
      (fuel : ℕ) (path : List ℕ)
      → length path ≤ fuel
      → Tries (search_path execve file fuel path) (directories path)
  unfolding search_path
  search_path_lem fuel [] enough errno = refl
  search_path_lem zero (c ∷ s) enough errno = elim enough [ ]
  search_path_lem (suc fuel) (c ∷ s) enough errno =
      search_round_lem (c ∷ s) (search_path execve file fuel) (omega arith) (Split-cases (c ∷ s))
        (λ t shorter. search_path_lem fuel t (omega (arith, shorter, enough))) errno

search_list_lem :
    (execve : List ℕ → Option ℕ) (file : List ℕ) (path_env : Option (List ℕ)) (errno : ℕ)
    → attempt execve (candidates file (directories (or_bin path_env))) errno
      ≡ attempt execve (candidates file (search_list path_env)) errno
search_list_lem execve file none errno = refl
search_list_lem execve file (some path) errno = refl

-- `execvp` of a name without a slash tries the directories of `PATH`, or `/bin`, in their order, without
-- the empty ones and those that make the name too long: it goes on while there is no such file, and
-- its result is the first other outcome, or else the last error, or `errno` as it was with nothing to try.
pub execvp_lem :
    (execve : List ℕ → Option ℕ) (file : List ℕ) (path_env : Option (List ℕ)) (errno : ℕ)
    → strchr file b'/' ≡ none
    → execvp execve (some file) path_env errno
      ≡ attempt execve (candidates file (search_list path_env)) errno
unfolding execvp
execvp_lem execve file path_env errno plain =
    ap (λ o. search_for execve file o path_env errno) plain
    ∙ (search_path_lem execve file (length (or_bin path_env)) (or_bin path_env) (omega arith) errno
        ∙ search_list_lem execve file path_env errno)
