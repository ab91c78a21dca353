-- ===== src/Strings/Text.antt =====
-- lib/libc_string.c, the functions on texts. A text is the list of its bytes before the terminating
-- zero, so none of them is zero; a pointer into it is the rest of the text from there on.
pub mod Search
pub mod Split
use lamp_userspace.Prelude.{
  ℕ, zero, suc, ◌+◌, Bool, true, false, not, ◌&&◌, ◌==◌, if◌then◌else◌, List, [], ◌∷◌, length, take,
  drop, Option, none, some, u8,
}
use lamp_userspace.Prelude.Int.{ℤ, pos, negsuc, sub_ℕ}

abbrev pub is_some {ℓ} : {A : Type ℓ} → Option A → Bool
is_some none = false
is_some (some a) = true

unfoldable pub strlen : List ℕ → ℕ
strlen [] = 0
strlen (c ∷ s) = suc (strlen s)

unfoldable pub strnlen : List ℕ → ℕ → ℕ
strnlen s zero = 0
strnlen [] (suc n) = 0
strnlen (c ∷ s) (suc n) = suc (strnlen s n)

unfoldable pub strcmp : List ℕ → List ℕ → ℤ
strcmp [] [] = pos 0
strcmp [] (d ∷ b) = sub_ℕ 0 d
strcmp (c ∷ a) [] = pos c
strcmp (c ∷ a) (d ∷ b) = if c == d then strcmp a b else sub_ℕ c d

unfoldable pub strncmp : List ℕ → List ℕ → ℕ → ℤ
strncmp a b zero = pos 0
strncmp [] [] (suc n) = pos 0
strncmp [] (d ∷ b) (suc n) = sub_ℕ 0 d
strncmp (c ∷ a) [] (suc n) = pos c
strncmp (c ∷ a) (d ∷ b) (suc n) = if c == d then strncmp a b n else sub_ℕ c d

unfoldable pub strchr : List ℕ → ℕ → Option (List ℕ)
strchr [] c = if c == 0 then some [] else none
strchr (x ∷ s) c = if x == u8 c then some (x ∷ s) else strchr s c

abbrev or_end : List ℕ → Option (List ℕ) → List ℕ
or_end s none = drop (strlen s) s
or_end s (some p) = p

unfoldable pub strchrnul : List ℕ → ℕ → List ℕ
unfolding strchr strlen
strchrnul s c = or_end s (strchr s c)

last_of : ℕ → Option (List ℕ) → List ℕ → Option (List ℕ)
last_of ch last [] = if 0 == ch then some [] else last
last_of ch last (x ∷ s) = last_of ch (if x == ch then some (x ∷ s) else last) s

unfoldable pub strrchr : List ℕ → ℕ → Option (List ℕ)
unfolding last_of
strrchr s c = last_of (u8 c) none s

abbrev pub is_zero : ℤ → Bool
is_zero (pos n) = n == 0
is_zero (negsuc n) = false

-- The loop of `strstr`, for a needle of `nl` bytes.
pub find_text : List ℕ → List ℕ → ℕ → Option (List ℕ)
find_text [] n nl = none
find_text (c ∷ h) n nl = if is_zero (strncmp (c ∷ h) n nl) then some (c ∷ h) else find_text h n nl

unfoldable pub strstr : List ℕ → List ℕ → Option (List ℕ)
unfolding strlen find_text strncmp
strstr h n = let nl = strlen n in if nl == 0 then some h else find_text h n nl

unfoldable pub strpbrk : List ℕ → List ℕ → Option (List ℕ)
unfolding strchr
strpbrk [] accept = none
strpbrk (c ∷ s) accept = if is_some (strchr accept c) then some (c ∷ s) else strpbrk s accept

unfoldable pub strspn : List ℕ → List ℕ → ℕ
strspn [] accept = 0
strspn (c ∷ s) accept = if is_some (strchr accept c) then suc (strspn s accept) else 0

unfoldable pub strcspn : List ℕ → List ℕ → ℕ
strcspn [] reject = 0
strcspn (c ∷ s) reject = if not (is_some (strchr reject c)) then suc (strcspn s reject) else 0

-- `if (*end) *end++ = '\0';`
abbrev pub behind : List ℕ → List ℕ
behind [] = []
behind (c ∷ s) = s

-- The token, which the zero byte ends, and the new value of the caller's pointer.
unfoldable pub strsep : List ℕ → Option (List ℕ) → Option (List ℕ) × Option (List ℕ)
strsep delim none = (none, none)
strsep delim (some start) =
    let n = strcspn start delim in (some (take n start), some (behind (drop n start)))

abbrev pub next_token : List ℕ → List ℕ → Option (List ℕ) × List ℕ
next_token delim [] = (none, [])
next_token delim (c ∷ s) =
    let n = strcspn (c ∷ s) delim in (some (take n (c ∷ s)), behind (drop n (c ∷ s)))

-- A call on a text, of the caller or of the save pointer.
unfoldable pub strtok_r : List ℕ → List ℕ → Option (List ℕ) × List ℕ
strtok_r delim s = next_token delim (drop (strspn s delim) s)
