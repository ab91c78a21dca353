-- ===== src/Stdlib/Heap/Reach.antt =====
-- lib/libc_stdlib.c, the states that sequences of calls on the heap reach.
use lamp_userspace.Prelude.{
  ℕ, ◌+◌, ◌-◌, ◌*◌, ◌^◌, ◌≤◌, ◌<◌, ◌≡◌, ◌≢◌, refl, arith, [], Option, none, some,
}
use std.Path.{subst}
use lamp_userspace.Strings.Memory.{Memory}
use lamp_userspace.Stdlib.{enomem}
use lamp_userspace.Stdlib.Heap.{Heap, arena, header, malloc, calloc, free, realloc}
use lamp_userspace.Stdlib.Heap.Blocks.{InUse}
use lamp_userspace.Stdlib.Heap.Allocate.{IsHeap, Allocated, malloc_lem}
use lamp_userspace.Stdlib.Heap.Release.{Freed, free_lem}
use lamp_userspace.Stdlib.Heap.Contents.{Apart, Cleared, IsHeap-Apart, calloc_lem, calloc-overflow}
use lamp_userspace.Stdlib.Heap.Resize.{Resized, realloc_lem}

-- The heap as the program starts: no header, `g_heap_end` 0, and any bytes.
abbrev pub empty_heap : Memory → Heap
empty_heap memory = record { blocks = []; end = 0; memory = memory; errno = 0 }

-- The heaps after calls of `malloc`, `calloc`, `free` and `realloc` with sizes that stay in a word
-- with their header and rounding and with pointers to blocks in use. Between the calls the program
-- writes any bytes and any error number.
pub data Reachable : Heap → Type 0 where
  initial : (memory : Memory) → Reachable (empty_heap memory)
  written :
      {h : Heap}
      → Reachable h
      → (memory : Memory) (errno : ℕ) → Reachable (record h { memory = memory; errno = errno })
  allocated :
      {h : Heap} → Reachable h → (size : ℕ) → size ≤ 2 ^ 32 - 16 → Reachable (malloc size h).1
  cleared :
      {h : Heap}
      → Reachable h
      → (nmemb size : ℕ) → nmemb * size ≤ 2 ^ 32 - 16
      → Reachable (calloc nmemb size h).1
  overflowed :
      {h : Heap}
      → Reachable h
      → (nmemb size : ℕ) → 2 ^ 32 ≤ nmemb * size
      → Reachable (calloc nmemb size h).1
  freed :
      {h h' : Heap}
      → Reachable h
      → (p s : ℕ) → header ≤ p
      → InUse (p - header) s h.blocks
      → free (some p) h ≡ some h'
      → Reachable h'
  resized :
      {h h' : Heap}
      → Reachable h
      → (p s size : ℕ) (q : Option ℕ) → header ≤ p
      → InUse (p - header) s h.blocks
      → 0 < size
      → size ≤ 2 ^ 32 - 16
      → realloc (some p) size h ≡ some (q, h')
      → Reachable h'

written-IsHeap :
    (h : Heap) (memory : Memory) (errno : ℕ)
    → IsHeap h
    → IsHeap (record h { memory = memory; errno = errno })
written-IsHeap h memory errno valid = record {
  tiles = valid.tiles;
  inside = valid.inside;
  fenced = valid.fenced;
}

refused-IsHeap : (h h' : Heap) → IsHeap h → h' ≡ record h { errno = enomem } → IsHeap h'
refused-IsHeap h h' valid same = rw same (written-IsHeap h h.memory enomem valid)

Allocated-IsHeap :
    (size : ℕ) (h : Heap) → IsHeap h → (r : Option ℕ × Heap) → Allocated size h r → IsHeap r.1
Allocated-IsHeap size h valid (some p, h') done = done.0
Allocated-IsHeap size h valid (none, h') done = refused-IsHeap h h' valid done.0

Cleared-IsHeap :
    (total : ℕ) (h : Heap) → IsHeap h → (r : Option ℕ × Heap) → Cleared total h r → IsHeap r.1
Cleared-IsHeap total h valid (some p, h') done = done.0
Cleared-IsHeap total h valid (none, h') done = refused-IsHeap h h' valid done.0

Freed-IsHeap : (p : ℕ) (h h' : Heap) (r : Option Heap) → Freed p h r → r ≡ some h' → IsHeap h'
Freed-IsHeap p h h' none done e = absurd done
Freed-IsHeap p h h' (some h1) done e = let same : h1 ≡ h' = cc in subst IsHeap same done.0

Resized-IsHeap :
    (p s size : ℕ) (h h' : Heap) (q : Option ℕ)
    → IsHeap h
    → (r : Option (Option ℕ × Heap)) → Resized p s size h r
    → r ≡ some (q, h')
    → IsHeap h'
Resized-IsHeap p s size h h' q valid none done e = absurd done
Resized-IsHeap p s size h h' q valid (some (some p', h1)) done e =
    let same : h1 ≡ h' = cc in subst IsHeap same done.0
Resized-IsHeap p s size h h' q valid (some (none, h1)) done e =
    let same : h1 ≡ h' = cc in subst IsHeap same (refused-IsHeap h h1 valid done.0)

-- Every call keeps the heap well formed.
pub Reachable-IsHeap : {h : Heap} → Reachable h → IsHeap h
Reachable-IsHeap (initial memory) = record { tiles = refl; inside = omega arith; fenced = tt }
Reachable-IsHeap (written {h = h} reached memory errno) =
    written-IsHeap h memory errno (Reachable-IsHeap reached)
Reachable-IsHeap (allocated {h = h} reached size small) =
    let valid = Reachable-IsHeap reached in
    Allocated-IsHeap size h valid (malloc size h) (malloc_lem size h small valid)
Reachable-IsHeap (cleared {h = h} reached nmemb size small) =
    let valid = Reachable-IsHeap reached in
    Cleared-IsHeap (nmemb * size) h valid (calloc nmemb size h)
      (calloc_lem nmemb size h small valid)
Reachable-IsHeap (overflowed {h = h} reached nmemb size large) =
    rw (calloc-overflow nmemb size h large)
      (written-IsHeap h h.memory enomem (Reachable-IsHeap reached))
Reachable-IsHeap (freed {h = h} {h' = h'} reached p s low held done) =
    Freed-IsHeap p h h' (free (some p) h) (free_lem p s h (Reachable-IsHeap reached) low held) done
Reachable-IsHeap (resized {h = h} {h' = h'} reached p s size q low held some_size small done) =
    let valid = Reachable-IsHeap reached in
    Resized-IsHeap p s size h h' q valid (realloc (some p) size h)
      (realloc_lem p s size h valid low held some_size small) done

-- After any calls of `malloc`, `calloc`, `free` and `realloc` from the empty heap on, with sizes
-- that stay in a word and pointers to blocks in use, two blocks in use at different addresses do
-- not overlap, their headers included, and they lie in the arena.
pub Reachable-Apart :
    (h : Heap) (a s b t : ℕ)
    → Reachable h
    → InUse a s h.blocks
    → InUse b t h.blocks
    → a ≢ b
    → Apart a s b t × (a + header + s ≤ arena) × (b + header + t ≤ arena)
Reachable-Apart h a s b t reached = IsHeap-Apart h a s b t (Reachable-IsHeap reached)
