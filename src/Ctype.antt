-- ===== src/Ctype.antt =====
-- lib/libc_string.c, the character tests at its end: ASCII only, on the value of the character.
use lamp_userspace.Prelude.{ℕ, ◌+◌, ◌-◌, Bool, ◌&&◌, ◌||◌, leb, ltb, ◌==◌, if◌then◌else◌}

unfoldable pub isdigit : ℕ → Bool
isdigit c = leb b'0' c && leb c b'9'

isupper : ℕ → Bool
isupper c = leb b'A' c && leb c b'Z'

islower : ℕ → Bool
islower c = leb b'a' c && leb c b'z'

isalpha : ℕ → Bool
isalpha c = leb b'a' c && leb c b'z' || leb b'A' c && leb c b'Z'

unfoldable pub isalnum : ℕ → Bool
unfolding isalpha isdigit
isalnum c = isalpha c || isdigit c

unfoldable isxdigit : ℕ → Bool
unfolding isdigit
isxdigit c = isdigit c || leb b'a' c && leb c b'f' || leb b'A' c && leb c b'F'

unfoldable pub isspace : ℕ → Bool
isspace c = c == 32 || c == 9 || c == 10 || c == 13 || c == 11 || c == 12

unfoldable isprint : ℕ → Bool
isprint c = leb 0x20 c && ltb c 0x7f

unfoldable pub tolower : ℕ → ℕ
unfolding isupper
tolower c = if isupper c then c + (b'a' - b'A') else c

unfoldable pub toupper : ℕ → ℕ
unfolding islower
toupper c = if islower c then c - (b'a' - b'A') else c
