-- ===== src/Stdlib/Tests.antt =====
-- The heap, `qsort` and `bsearch` at concrete values.
use lamp_userspace.Prelude.{
  ℕ, zero, suc, ◌+◌, ◌-◌, ◌*◌, ◌^◌, ◌≤◌, ◌<◌, ◌≡◌, ◌↔◌, refl, inl, inr, true, false, List, [], ◌∷◌,
  get_elem?, some, arith,
}
use lamp_userspace.Prelude.Int.{ℤ, sub_ℕ}
use lamp_userspace.Stdlib.Heap.{Block, Heap, arena, header, malloc, free, calloc, realloc}
use lamp_userspace.Stdlib.Heap.Blocks.{InUse}
use lamp_userspace.Stdlib.Heap.Allocate.{IsHeap, Allocated, malloc_lem}
use lamp_userspace.Stdlib.Heap.Release.{Freed, free_lem}
use lamp_userspace.Stdlib.Heap.Contents.{Apart, Cleared, calloc_lem}
use lamp_userspace.Stdlib.Heap.Resize.{Resized, realloc_lem}
use lamp_userspace.Stdlib.Heap.Reach.{Reachable, initial, allocated, empty_heap, Reachable-Apart}
use lamp_userspace.Stdlib.Sort.{is_positive, qsort, at, absent, bsearch}
use lamp_userspace.Stdlib.Sort.Order.{Before, IsSorted, qsort_lem}
use lamp_userspace.Stdlib.Sort.Search.{Less, Greater, Located, IsOrdered, bsearch_lem}
use mathlib.Core.List.{Perm}

-- Two blocks in use with a free one between them.
abbrev blocks : List Block
blocks =
    record { addr = 0; size = 8; free = false }
    ∷ record { addr = 20; size = 8; free = true }
    ∷ record { addr = 40; size = 8; free = false }
    ∷ []

abbrev heap : Heap
heap = record { blocks = blocks; end = 60; memory = λ q. q; errno = 0 }

heap-IsHeap : IsHeap heap
heap-IsHeap = record {
  tiles = (refl, refl, omega arith, (refl, refl, omega arith, (refl, refl, omega arith, refl)));
  inside = omega arith;
  fenced = (refl, (refl, (refl, tt)));
}

first_block : InUse 0 8 blocks
first_block = inl (refl, refl, refl)

third_block : InUse 40 8 blocks
third_block = inr (inr (inl (refl, refl, refl)))

malloc_lem_example : Allocated 5 heap (malloc 5 heap)
malloc_lem_example = malloc_lem 5 heap (omega arith) heap-IsHeap

free_lem_example : Freed 52 heap (free (some 52) heap)
free_lem_example = free_lem 52 8 heap heap-IsHeap (omega arith) third_block

-- The heap after two calls of `malloc` from the empty one on.
abbrev started : Heap
started = empty_heap (λ q. q)

abbrev two_blocks : Heap
two_blocks = (malloc 6 (malloc 5 started).1).1

two_blocks-Reachable : Reachable two_blocks
two_blocks-Reachable = allocated (allocated (initial (λ q. q)) 5 (omega arith)) 6 (omega arith)

two_blocks_run :
    two_blocks.blocks
    ≡ record { addr = 0; size = 8; free = false }
      ∷ record { addr = 20; size = 8; free = false }
      ∷ []
unfolding malloc
two_blocks_run = refl

first_held : InUse 0 8 two_blocks.blocks
unfolding malloc
first_held = inl (refl, refl, refl)

second_held : InUse 20 8 two_blocks.blocks
unfolding malloc
second_held = inr (inl (refl, refl, refl))

Reachable-Apart_example : Apart 0 8 20 8 × (0 + header + 8 ≤ arena) × (20 + header + 8 ≤ arena)
Reachable-Apart_example =
    Reachable-Apart two_blocks 0 8 20 8 two_blocks-Reachable first_held second_held
      (λ e. omega (arith, e))

calloc_lem_example : Cleared (2 * 4) heap (calloc 2 4 heap)
calloc_lem_example = calloc_lem 2 4 heap (omega arith) heap-IsHeap

realloc_lem_example : Resized 12 8 30 heap (realloc (some 12) 30 heap)
realloc_lem_example =
    realloc_lem 12 8 30 heap heap-IsHeap (omega arith) first_block (omega arith) (omega arith)

reused : (malloc 5 heap).0 ≡ some 32
unfolding malloc
reused = refl

-- The size close to 2^32 wraps to 0, and the block has no room.
wrapped : (malloc (2 ^ 32 - 2) heap).0 ≡ some 32
unfolding malloc
wrapped = refl

abbrev by_value : ℕ → ℕ → ℤ
by_value x y = sub_ℕ x y

by_value_total : (x y : ℕ) → is_positive (by_value x y) ≡ true → Before by_value y x
by_value_total x y h = ground arith

by_value_trans : (x y z : ℕ) → Before by_value x y → Before by_value y z → Before by_value x z
by_value_trans x y z h k = ground arith

qsort_lem_example :
    Perm (qsort by_value 4 (3 ∷ 1 ∷ 2 ∷ [])) (3 ∷ 1 ∷ 2 ∷ [])
    × IsSorted by_value (qsort by_value 4 (3 ∷ 1 ∷ 2 ∷ []))
qsort_lem_example =
    qsort_lem by_value by_value_total by_value_trans 4 (3 ∷ 1 ∷ 2 ∷ []) (omega arith)

sorted_run : qsort by_value 4 (3 ∷ 1 ∷ 2 ∷ 1 ∷ []) ≡ 1 ∷ 1 ∷ 2 ∷ 3 ∷ []
unfolding qsort
sorted_run = refl

-- Elements of more than 64 bytes stay as they are.
large_elements : qsort by_value 65 (2 ∷ 1 ∷ []) ≡ 2 ∷ 1 ∷ []
unfolding qsort
large_elements = refl

abbrev numbers : List ℕ
numbers = 0 ∷ 1 ∷ 2 ∷ 3 ∷ []

get_elem?-numbers : (i x : ℕ) → get_elem? numbers i ≡ some x → x ≡ i
get_elem?-numbers zero x e = cc
get_elem?-numbers (suc zero) x e = cc
get_elem?-numbers (suc (suc zero)) x e = cc
get_elem?-numbers (suc (suc (suc zero))) x e = cc
get_elem?-numbers (suc (suc (suc (suc i)))) x e = cc

Less-iff : (k x : ℕ) → Less by_value k numbers x ↔ (k < x)
Less-iff k x = (λ (n, e). ground arith, λ h. (x - k - 1, ground arith))

Greater-iff : (k x : ℕ) → Greater by_value k numbers x ↔ (x < k)
Greater-iff k x = (λ (n, e). ground arith, λ h. (k - x - 1, ground arith))

numbers-IsOrdered : IsOrdered by_value 2 numbers
numbers-IsOrdered i j x y le at_i at_j =
    let x_i = get_elem?-numbers i x at_i in
    let y_j = get_elem?-numbers j y at_j in
    (
      λ less. (Less-iff 2 y).1 (omega (arith, (Less-iff 2 x).0 less, x_i, y_j, le)),
      λ greater. (Greater-iff 2 x).1 (omega (arith, (Greater-iff 2 y).0 greater, x_i, y_j, le)),
    )

bsearch_lem_example : Located by_value 2 numbers (bsearch by_value 2 numbers)
bsearch_lem_example = bsearch_lem by_value 2 numbers numbers-IsOrdered

found_run : bsearch by_value 2 numbers ≡ at 2
unfolding bsearch
found_run = refl

absent_run : bsearch by_value 5 numbers ≡ absent
unfolding bsearch
absent_run = refl
