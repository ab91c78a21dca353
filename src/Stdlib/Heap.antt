-- ===== src/Stdlib/Heap.antt =====
-- lib/libc_stdlib.c, the first-fit heap. A pointer is an offset in `g_heap`. The list of the headers
-- is a list, and the bytes of the blocks stand in a memory without the headers.
pub mod Blocks
pub mod Find
pub mod Merge
pub mod Allocate
pub mod Release
pub mod Contents
pub mod Resize
pub mod Reach
use lamp_userspace.Prelude.{
  ℕ, zero, suc, ◌+◌, ◌-◌, ◌*◌, ◌/◌, ◌^◌, Bool, true, false, not, ◌&&◌, ◌||◌, ltb, leb, ◌==◌,
  if◌then◌else◌, List, [], ◌∷◌, ◌++◌, Option, none, some, u32,
}
use mathlib.Core.Option
use lamp_userspace.Strings.Memory.{Memory, memcpy, memset}
use lamp_userspace.Stdlib.{enomem}

-- `heap_block_t`, with its address in place of the pointer to it.
pub record Block : Type 0 where
  pub addr : ℕ
  pub size : ℕ
  pub free : Bool

pub record Heap : Type 0 where
  pub blocks : List Block
  pub end : ℕ
  pub memory : Memory
  pub errno : ℕ

-- `sizeof(g_heap)` and `sizeof(heap_block_t)`.
abbrev pub arena : ℕ
arena = 262144

abbrev pub header : ℕ
header = 12

abbrev pub align4 : ℕ → ℕ
align4 n = u32 (n + 3) / 4 * 4

abbrev pub wanted_of : ℕ → ℕ
wanted_of size = align4 (if size == 0 then 1 else size)

-- The loop of `malloc`: the first free block that is large enough, and the list with it in use.
pub take_fit : ℕ → List Block → Option (Block × List Block)
take_fit wanted [] = none
take_fit wanted (b ∷ bs) =
    if b.free && leb wanted b.size
    then some (b, record b { free = false } ∷ bs)
    else Option.map (λ r. (r.0, b ∷ r.1)) (take_fit wanted bs)

-- `malloc` from what its loop found.
pub allot : ℕ → Heap → Option (Block × List Block) → Option ℕ × Heap
allot wanted h (some (b, blocks)) = (some (b.addr + header), record h { blocks = blocks })
allot wanted h none =
    if ltb (u32 (arena - h.end)) (align4 (u32 (header + wanted)))
    then (none, record h { errno = enomem })
    else (
      some (h.end + header),
      record h {
        blocks = h.blocks ++ record { addr = h.end; size = wanted; free = false } ∷ [];
        end = h.end + align4 (u32 (header + wanted));
      },
    )

unfoldable pub malloc : ℕ → Heap → Option ℕ × Heap
unfolding take_fit allot
malloc size h = allot (wanted_of size) h (take_fit (wanted_of size) h.blocks)

-- The block whose header is at an address, and the list with it free. There is none when the
-- pointer does not come from this heap; the source then writes into something else.
pub release : ℕ → List Block → Option (Block × List Block)
release addr [] = none
release addr (b ∷ bs) =
    if b.addr == addr
    then some (b, record b { free = true } ∷ bs)
    else Option.map (λ r. (r.0, b ∷ r.1)) (release addr bs)

-- The loop of `free`, with the block `previous`.
pub merge_into : Block → List Block → List Block
merge_into previous [] = previous ∷ []
merge_into previous (b ∷ bs) =
    let longer = record previous { size = u32 (previous.size + align4 (u32 (header + b.size))) } in
    let merged = merge_into longer bs in
    let kept = previous ∷ merge_into b bs in if previous.free && b.free then merged else kept

pub merge : List Block → List Block
unfolding merge_into
merge [] = []
merge (b ∷ bs) = merge_into b bs

-- `none` is a stray write.
pub free : Option ℕ → Heap → Option Heap
unfolding release merge
free none h = some h
free (some ptr) h =
    if ltb ptr header || leb h.end ptr
    then some h
    else Option.map (λ r. record h { blocks = merge r.1 }) (release (ptr - header) h.blocks)

-- The end of `calloc`.
pub clear : ℕ → Option ℕ × Heap → Option ℕ × Heap
clear total (none, h) = (none, h)
clear total (some p, h) = (some p, record h { memory = memset p 0 total h.memory })

pub calloc : ℕ → ℕ → Heap → Option ℕ × Heap
unfolding malloc clear
calloc nmemb size h =
    let total = u32 (nmemb * size) in
    if not (size == 0) && ltb ((2 ^ 32 - 1) / size) nmemb
    then (none, record h { errno = enomem })
    else clear total (malloc total h)

-- The size in the header at an address.
pub size_at : ℕ → List Block → Option ℕ
size_at addr [] = none
size_at addr (b ∷ bs) = if b.addr == addr then some b.size else size_at addr bs

-- `realloc` when the block of `old` bytes is too small.
pub move_block : ℕ → ℕ → ℕ → Option ℕ × Heap → Option (Option ℕ × Heap)
unfolding free
move_block ptr old size (none, h) = some (none, h)
move_block ptr old size (some p, h) =
    let copy = if ltb old size then old else size in
    Option.map (λ h'. (some p, h'))
      (free (some ptr) (record h { memory = memcpy p ptr copy h.memory }))

pub realloc : Option ℕ → ℕ → Heap → Option (Option ℕ × Heap)
unfolding malloc free size_at move_block
realloc none size h = some (malloc size h)
realloc (some ptr) size h =
    if size == 0
    then Option.map (λ h'. (none, h')) (free (some ptr) h)
    else elim (size_at (ptr - header) h.blocks) [
      | none ↦ none
      | some old ↦
          if leb size old then some (some ptr, h) else move_block ptr old size (malloc size h)
    ]
