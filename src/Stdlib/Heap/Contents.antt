-- ===== src/Stdlib/Heap/Contents.antt =====
-- The blocks in use do not overlap; `calloc` clears its block and `realloc` keeps the bytes.
use lamp_userspace.Prelude.{
  ℕ, ◌+◌, ◌-◌, ◌*◌, ◌/◌, ◌^◌, ◌≤◌, ◌<◌, ◌≡◌, ◌≢◌, ◌⊎◌, inl, inr, refl, true, false, not, ◌&&◌, ltb,
  ◌==◌, arith, u32, List, [], ◌∷◌, Option, none, some, ap, sym, ◌∙◌, ==-false, ltb-false, ltb-true,
}
use native.Mathlib.Decide.{dec_lt, ℕ_discrete}
use native.Mathlib.Nat.{le-div_iff_mul-le}
use lamp_userspace.Strings.Memory.{Memory}
use lamp_userspace.Strings.Memory.Copy.{Replaced, memset_lem}
use lamp_userspace.Stdlib.{enomem}
use lamp_userspace.Stdlib.Heap.{Block, Heap, arena, header, wanted_of, malloc, clear, calloc}
use lamp_userspace.Stdlib.Heap.Blocks.{Tiles, InUse, InUse-range}
use lamp_userspace.Stdlib.Heap.Find.{NoFit}
use lamp_userspace.Stdlib.Heap.Allocate.{IsHeap, Adds, Allocated, malloc_lem}

-- Two ranges of bytes, each with the header before it, do not meet.
abbrev pub Apart : ℕ → ℕ → ℕ → ℕ → Type 0
Apart a s b t = (a + header + s ≤ b) ⊎ (b + header + t ≤ a)

pub Tiles-Apart :
    (a s b t e start : ℕ) (bs : List Block)
    → Tiles start bs e
    → InUse a s bs
    → InUse b t bs
    → a ≢ b
    → Apart a s b t
Tiles-Apart a s b t e start [] tiles u v ne = absurd u
Tiles-Apart a s b t e start (x ∷ bs) tiles (inl (_, ea, es)) (inl (_, eb, _)) ne =
    absurd (ne (sym ea ∙ eb))
Tiles-Apart a s b t e start (x ∷ bs) tiles (inl (_, ea, es)) (inr v) ne =
    let (low, _, _) = InUse-range b t e (start + header + x.size) bs v tiles.3 in inl (omega arith)
Tiles-Apart a s b t e start (x ∷ bs) tiles (inr u) (inl (_, eb, et)) ne =
    let (low, _, _) = InUse-range a s e (start + header + x.size) bs u tiles.3 in inr (omega arith)
Tiles-Apart a s b t e start (x ∷ bs) tiles (inr u) (inr v) ne =
    Tiles-Apart a s b t e (start + header + x.size) bs tiles.3 u v ne

-- On a well-formed heap two blocks in use at different addresses do not overlap, their headers
-- included, and they lie in the arena.
pub IsHeap-Apart :
    (h : Heap) (a s b t : ℕ)
    → IsHeap h
    → InUse a s h.blocks
    → InUse b t h.blocks
    → a ≢ b
    → Apart a s b t × (a + header + s ≤ arena) × (b + header + t ≤ arena)
IsHeap-Apart h a s b t valid u v ne =
    let (_, high_a, _) = InUse-range a s h.end 0 h.blocks u valid.tiles in
    let (_, high_b, _) = InUse-range b t h.end 0 h.blocks v valid.tiles in
    (
      Tiles-Apart a s b t h.end 0 h.blocks valid.tiles u v ne,
      omega (arith, valid.inside),
      omega (arith, valid.inside),
    )

-- What `calloc` must do with a request of `total` bytes.
abbrev pub Cleared : ℕ → Heap → Option ℕ × Heap → Type 0
Cleared total h (some p, h') =
    IsHeap h'
    × ((s : ℕ) × (total ≤ s) × (0 < s) × Adds p s h h')
    × Replaced p total (λ k. 0) h.memory h'.memory
Cleared total h (none, h') =
    (h' ≡ record h { errno = enomem })
    × NoFit (wanted_of total) h.blocks
    × (arena < h.end + header + wanted_of total)

clear_lem :
    (total : ℕ) (h : Heap) (r : Option ℕ × Heap)
    → Allocated total h r
    → Cleared total h (clear total r)
unfolding clear
clear_lem total h (none, h') done = done
clear_lem total h (some p, h') (valid, new, same) =
    let (cleared, others) = memset_lem p 0 total h'.memory in
    (
      record { tiles = valid.tiles; inside = valid.inside; fenced = valid.fenced },
      new,
      (cleared, λ q out. others q out ∙ ap (λ (m : Memory). m q) same),
    )

-- On a well-formed heap and for a product that stays in a word with its header and rounding,
-- `calloc` does what `malloc` does for the product, and the new block is all zero; no other byte
-- changes.
pub calloc_lem :
    (nmemb size : ℕ) (h : Heap)
    → nmemb * size ≤ 2 ^ 32 - 16
    → IsHeap h
    → Cleared (nmemb * size) h (calloc nmemb size h)
unfolding calloc
calloc_lem nmemb size h small valid =
    let total : u32 (nmemb * size) ≡ nmemb * size = omega arith in
    let passes : (not (size == 0) && ltb ((2 ^ 32 - 1) / size) nmemb) ≡ false =
      elim (ℕ_discrete size 0) [
        | yes zero_size ↦ rw zero_size refl
        | no some_size ↦
            let fits : nmemb ≤ (2 ^ 32 - 1) / size =
              (le-div_iff_mul-le (omega arith)).1 (omega arith) in
            rw (==-false size 0 some_size, ltb-false ((2 ^ 32 - 1) / size) nmemb fits)
      ] in
    rw (total, passes)
      (clear_lem (nmemb * size) h (malloc (nmemb * size) h)
        (malloc_lem (nmemb * size) h small valid))

-- When the product does not fit a word, `calloc` allocates nothing and reports ENOMEM.
pub calloc-overflow :
    (nmemb size : ℕ) (h : Heap)
    → 2 ^ 32 ≤ nmemb * size
    → calloc nmemb size h ≡ (none, record h { errno = enomem })
unfolding calloc
calloc-overflow nmemb size h large =
    let refused : (not (size == 0) && ltb ((2 ^ 32 - 1) / size) nmemb) ≡ true =
      elim (ℕ_discrete size 0) [
        | yes zero_size ↦ absurd (
            let none : nmemb * size ≡ nmemb * 0 = ap (λ (t : ℕ). nmemb * t) zero_size in
            omega arith)
        | no some_size ↦ elim (dec_lt ((2 ^ 32 - 1) / size) nmemb) [
          | yes over ↦ rw (==-false size 0 some_size, ltb-true ((2 ^ 32 - 1) / size) nmemb over)
          | no fits ↦
              let bound =
                (le-div_iff_mul-le {k = size} {x = nmemb} {y = 2 ^ 32 - 1} (omega arith)).0
                  (omega arith) in
              absurd (omega arith)
        ]
      ] in
    rw refused
