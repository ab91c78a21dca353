-- ===== src/Strings/Memory.antt =====
-- lib/libc_string.c, the functions on blocks of memory. A memory gives the byte at each address;
-- the functions read and write it in the order of the source, so that overlaps show.
pub mod Copy
use lamp_userspace.Prelude.{ℕ, zero, suc, ◌+◌, ltb, ◌==◌, if◌then◌else◌, Option, none, some, u8}
use lamp_userspace.Prelude.Int.{ℤ, pos, sub_ℕ}

abbrev pub Memory : Type 0
Memory = ℕ → ℕ

abbrev pub store : Memory → ℕ → ℕ → Memory
store m p v q = if p == q then v else m q

-- `for (i = 0; i < n; i++) d[i] = s[i]`, with the rounds that are left.
unfoldable pub copy_up : ℕ → ℕ → ℕ → ℕ → Memory → Memory
copy_up zero i dst src m = m
copy_up (suc left) i dst src m = copy_up left (i + 1) dst src (store m (dst + i) (m (src + i)))

-- `while (n) { n--; d[n] = s[n]; }`
unfoldable pub copy_down : ℕ → ℕ → ℕ → Memory → Memory
copy_down zero dst src m = m
copy_down (suc n) dst src m = copy_down n dst src (store m (dst + n) (m (src + n)))

unfoldable pub memcpy : ℕ → ℕ → ℕ → Memory → Memory
memcpy dst src n m = copy_up n 0 dst src m

unfoldable pub memmove : ℕ → ℕ → ℕ → Memory → Memory
memmove dst src n m = if ltb dst src then copy_up n 0 dst src m else copy_down n dst src m

pub fill : ℕ → ℕ → ℕ → ℕ → Memory → Memory
fill zero i dst c m = m
fill (suc left) i dst c m = fill left (i + 1) dst c (store m (dst + i) (u8 c))

pub memset : ℕ → ℕ → ℕ → Memory → Memory
memset dst c n m = fill n 0 dst c m

-- The loops of `memcmp` and `memchr` from `i` on.
compare_from : ℕ → ℕ → ℕ → ℕ → Memory → ℤ
compare_from zero i a b m = pos 0
compare_from (suc left) i a b m =
    if m (a + i) == m (b + i)
    then compare_from left (i + 1) a b m
    else sub_ℕ (m (a + i)) (m (b + i))

unfoldable pub memcmp : ℕ → ℕ → ℕ → Memory → ℤ
unfolding compare_from
memcmp a b n m = compare_from n 0 a b m

find_from : ℕ → ℕ → ℕ → ℕ → Memory → Option ℕ
find_from zero i s c m = none
find_from (suc left) i s c m =
    if m (s + i) == u8 c then some (s + i) else find_from left (i + 1) s c m

unfoldable pub memchr : ℕ → ℕ → ℕ → Memory → Option ℕ
unfolding find_from
memchr s c n m = find_from n 0 s c m

-- The new memory, and the address behind the copy.
unfoldable pub mempcpy : ℕ → ℕ → ℕ → Memory → Memory × ℕ
unfolding memcpy
mempcpy dst src n m = (memcpy dst src n m, dst + n)
