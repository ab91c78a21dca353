-- ===== src/Stdlib/Heap/Resize.antt =====
-- `realloc` keeps the bytes of the block and of all others.
use mathlib.Core.Option
use lamp_userspace.Prelude.{
  ℕ, ◌+◌, ◌-◌, ◌^◌, ◌≤◌, ◌<◌, ◌≡◌, ◌≢◌, ◌⊎◌, inl, inr, refl, arith, List, [], ◌∷◌, Option, none,
  some, ap, ◌∙◌, ==-false, ==_iff, ltb-true, leb-false, leb-true,
}
use native.Mathlib.Decide.{dec_lt}
use lamp_userspace.Strings.Memory.{Memory, memcpy}
use lamp_userspace.Strings.Memory.Copy.{memcpy_lem}
use lamp_userspace.Stdlib.{enomem}
use lamp_userspace.Stdlib.Heap.{
  Block, Heap, arena, header, wanted_of, malloc, free, size_at, move_block, realloc,
}
use lamp_userspace.Stdlib.Heap.Blocks.{Tiles, InUse, InUse-range}
use lamp_userspace.Stdlib.Heap.Find.{NoFit}
use lamp_userspace.Stdlib.Heap.Allocate.{IsHeap, Adds, Allocated, malloc_lem}
use lamp_userspace.Stdlib.Heap.Release.{Freed, free_lem}
use lamp_userspace.Stdlib.Heap.Contents.{Tiles-Apart}

size_at_lem :
    (a s e start : ℕ) (bs : List Block) → InUse a s bs → Tiles start bs e → size_at a bs ≡ some s
unfolding size_at
size_at_lem a s e start [] u t = absurd u
size_at_lem a s e start (x ∷ bs) (inl (_, ea, es)) t = rw ((==_iff x.addr a).1 ea) (ap some es)
size_at_lem a s e start (x ∷ bs) (inr later) t =
    let (low, _, _) = InUse-range a s e (start + header + x.size) bs later t.3 in
    rw (==-false x.addr a (λ eq. omega arith))
      (size_at_lem a s e (start + header + x.size) bs later t.3)

-- The other blocks in use of `h`, and their bytes, are in `h'` as they were.
abbrev pub KeepsOthers : ℕ → Heap → Heap → Type 0
KeepsOthers ptr h h' =
    (a t : ℕ)
    → InUse a t h.blocks
    → a ≢ ptr - header
    → InUse a t h'.blocks
      × ((k : ℕ) → k < t → h'.memory (a + header + k) ≡ h.memory (a + header + k))

-- What `realloc` must do with a block of `s` bytes at `ptr`.
abbrev pub Resized : ℕ → ℕ → ℕ → Heap → Option (Option ℕ × Heap) → Type 0
Resized ptr s size h none = ⊥
Resized ptr s size h (some (none, h')) =
    (h' ≡ record h { errno = enomem })
    × (s < size)
    × NoFit (wanted_of size) h.blocks
    × (arena < h.end + header + wanted_of size)
Resized ptr s size h (some (some p, h')) =
    IsHeap h'
    × (header ≤ p)
    × ((t : ℕ) × (size ≤ t) × InUse (p - header) t h'.blocks)
    × ((k : ℕ) → k < s → k < size → h'.memory (p + k) ≡ h.memory (ptr + k))
    × KeepsOthers ptr h h'

module _ (ptr s size : ℕ) (h : Heap) (valid : IsHeap h) (low : header ≤ ptr)
    (held : InUse (ptr - header) s h.blocks) (short : s < size) where
  -- The end of `realloc`, from the heap in which the bytes are copied.
  finished :
      (p t : ℕ) (h1 : Heap)
      → IsHeap h1
      → size ≤ t
      → Adds p t h h1
      → (m : Memory) → ((k : ℕ) → k < s → m (p + k) ≡ h.memory (ptr + k))
      → ((a u : ℕ)
          → InUse a u h.blocks
          → (k : ℕ) → k < u
          → m (a + header + k) ≡ h.memory (a + header + k))
      → (r : Option Heap) → Freed ptr (record h1 { memory = m }) r
      → Resized ptr s size h (Option.map (λ h'. (some p, h')) r)
  finished p t h1 valid1 large (low_p, fresh, adds) m new others none freed = freed
  finished p t h1 valid1 large (low_p, fresh, adds) m new others (some h2) (valid2, bytes, left) = (
    valid2,
    low_p,
    (
      t,
      large,
      (left (p - header) t).1
          ((adds (p - header) t).1 (inr (refl, refl)), λ e. fresh s (rw e held)),
    ),
    λ k in_s in_size. ap (λ (m : Memory). m (p + k)) bytes ∙ new k in_s,
    λ a u at other. (
      (left a u).1 ((adds a u).1 (inl at), other),
      λ k within. ap (λ (m : Memory). m (a + header + k)) bytes ∙ others a u at k within,
    ),
  )

  copied :
      (p t : ℕ) (h1 : Heap)
      → IsHeap h1
      → size ≤ t
      → Adds p t h h1
      → h1.memory ≡ h.memory
      → Resized ptr s size h (move_block ptr s size (some p, h1))
  unfolding move_block
  copied p t h1 valid1 large (low_p, fresh, adds) bytes =
      let m = memcpy p ptr s h1.memory in
      let mine : InUse (p - header) t h1.blocks = (adds (p - header) t).1 (inr (refl, refl)) in
      let kept = λ (a u : ℕ) (at : InUse a u h.blocks). (adds a u).1 (inl at) in
      let apart = λ (a u : ℕ) (at : InUse a u h.blocks).
        Tiles-Apart (p - header) t a u h1.end 0 h1.blocks valid1.tiles mine (kept a u at)
          (λ e. fresh u (rw e at)) in
      let safe : (p ≤ ptr) ⊎ (ptr + s ≤ p) = elim (apart (ptr - header) s held) [
        | inl before ↦ inl (omega arith)
        | inr after ↦ inr (omega arith)
      ] in
      let (new, others) = memcpy_lem p ptr s h1.memory safe in
      rw (ltb-true s size short) (
        finished p t h1 valid1 large (low_p, fresh, adds) m
          (λ k in_s. new k in_s ∙ ap (λ (m : Memory). m (ptr + k)) bytes)
          (λ a u at k within.
            others (a + header + k) (elim (apart a u at) [
              | inl before ↦ inr (omega arith)
              | inr after ↦ inl (omega arith)
            ])
            ∙ ap (λ (m : Memory). m (a + header + k)) bytes)
          (free (some ptr) (record h1 { memory = m }))
          (free_lem ptr s (record h1 { memory = m })
            (record { tiles = valid1.tiles; inside = valid1.inside; fenced = valid1.fenced }) low
            (kept (ptr - header) s held)))

  moved :
      (r : Option ℕ × Heap) → Allocated size h r → Resized ptr s size h (move_block ptr s size r)
  unfolding move_block
  moved (none, h1) (same, no_fit, full) = (same, short, no_fit, full)
  moved (some p, h1) (valid1, (t, large, _, adds), bytes) = copied p t h1 valid1 large adds bytes

-- On a well-formed heap, for a pointer to a block in use and a size that is not zero and stays in a
-- word with its header and rounding, `realloc` ends without a stray write. It returns a block in use
-- with room for the size that begins with the bytes of the old one, as far as both go, and every
-- other block in use stays with its bytes; or it returns a null pointer with ENOMEM and changes
-- nothing else, and then the old block is too small, no free block is large enough and the arena has
-- no room for one more.
pub realloc_lem :
    (ptr s size : ℕ) (h : Heap)
    → IsHeap h
    → header ≤ ptr
    → InUse (ptr - header) s h.blocks
    → 0 < size
    → size ≤ 2 ^ 32 - 16
    → Resized ptr s size h (realloc (some ptr) size h)
unfolding realloc
realloc_lem ptr s size h valid low held some_size small =
    rw
      (
        ==-false size 0 (λ e. omega arith),
        size_at_lem (ptr - header) s h.end 0 h.blocks held valid.tiles,
      )
      (elim (dec_lt s size) [
        | yes short ↦ rw (leb-false size s short) (
            moved ptr s size h valid low held short (malloc size h) (malloc_lem size h small valid))
        | no enough ↦ rw (leb-true size s (omega arith)) (
          valid,
          low,
          (s, omega arith, held),
          λ k in_s in_size. refl,
          λ a t at other. (at, λ k within. refl),
        )
      ])
