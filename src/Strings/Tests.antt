-- ===== src/Strings/Tests.antt =====
-- The functions of lib/libc_string.c at concrete memories and texts.
use lamp_userspace.Prelude.{ℕ, ◌+◌, ◌≡◌, refl, List, [], ◌∷◌, map, some, arith}
use lamp_userspace.Prelude.Int.{pos, negsuc}
use lamp_userspace.Prelude.Text.{codes}
use lamp_userspace.Strings.Memory.{
  Memory, copy_up, copy_down, memcpy, memmove, memcmp, memchr, mempcpy,
}
use lamp_userspace.Strings.Memory.Copy.{Replaced, memmove_lem}
use lamp_userspace.Strings.Text.{
  strnlen, strcmp, strncmp, strchr, strchrnul, strrchr, strstr, strpbrk, strspn, strcspn, strsep,
  strtok_r, is_some,
}
use lamp_userspace.Strings.Text.Search.{FirstPlace, strstr_lem}
use lamp_userspace.Strings.Text.Split.{
  separated, pieces, nonempty, padded, tokens, strsep_lem, strtok_r_lem,
}

-- Each byte holds its address.
abbrev addresses : Memory
addresses q = q

memmove_lem_example : Replaced 12 5 (λ k. 10 + k) addresses (memmove 12 10 5 addresses)
memmove_lem_example = memmove_lem 12 10 5 addresses

overlap_up : memmove 12 10 5 addresses 16 ≡ 14
unfolding memmove copy_down
overlap_up = refl

-- `memcpy` upwards repeats the first bytes.
overlap_memcpy : memcpy 12 10 5 addresses 16 ≡ 10
unfolding memcpy copy_up
overlap_memcpy = refl

first_difference : memcmp 10 20 3 addresses ≡ negsuc 9
unfolding memcmp
first_difference = refl

byte_found : memchr 10 12 5 addresses ≡ some 12
unfolding memchr
byte_found = refl

behind_copy : (mempcpy 12 10 5 addresses).1 ≡ 17
unfolding mempcpy
behind_copy = refl

abbrev path : List ℕ
path = codes "/usr//bin"

abbrev slash : List ℕ
slash = codes "/"

strstr_lem_example : FirstPlace path (codes "/b") (strstr path (codes "/b"))
strstr_lem_example = strstr_lem path (codes "/b") (omega arith, (omega arith, tt))

strstr_found : strstr path (codes "/b") ≡ some (codes "/bin")
unfolding strstr
strstr_found = refl

-- A fifth call of `strsep` still gives a text.
strsep_lem_example :
    separated slash 6 (some path)
    ≡ map some (padded 6 (pieces (λ c. is_some (strchr slash c)) path))
strsep_lem_example = strsep_lem slash 6 path

strsep_run :
    separated slash 6 (some path)
    ≡ some [] ∷ some (codes "usr") ∷ some [] ∷ some (codes "bin") ∷ some [] ∷ some [] ∷ []
unfolding strsep strcspn strchr
strsep_run = refl

strtok_r_lem_example :
    tokens slash 10 path ≡ some (nonempty (pieces (λ c. is_some (strchr slash c)) path))
strtok_r_lem_example = strtok_r_lem slash 10 path (omega arith)

strtok_r_run : tokens slash 10 path ≡ some (codes "usr" ∷ codes "bin" ∷ [])
unfolding strtok_r strspn strcspn strchr
strtok_r_run = refl

last_slash : strrchr path b'/' ≡ some (codes "/bin")
unfolding strrchr
last_slash = refl

no_colon : strchrnul path b':' ≡ []
unfolding strchrnul
no_colon = refl

any_of : strpbrk path (codes "bs") ≡ some (codes "sr//bin")
unfolding strpbrk
any_of = refl

order : strcmp (codes "bin") (codes "binary") ≡ negsuc 96
unfolding strcmp
order = refl

prefix_equal : strncmp (codes "bin") (codes "binary") 3 ≡ pos 0
unfolding strncmp
prefix_equal = refl

bounded_length : strnlen path 4 ≡ 4
unfolding strnlen
bounded_length = refl
