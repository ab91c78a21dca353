-- ===== src/Stdlib/Heap/Allocate.antt =====
-- `malloc` keeps the heap well formed and gives a new block.
use lamp_userspace.Prelude.{
  ℕ, ◌+◌, ◌-◌, ◌%◌, ◌^◌, ◌≤◌, ◌<◌, ◌≡◌, ◌⊎◌, ◌↔◌, inl, inr, refl, false, Bool, arith, u32, List, [],
  ◌∷◌, ◌++◌, Option, none, some, ltb-false, ltb-true,
}
use native.Mathlib.Decide.{dec_lt}
use lamp_userspace.Stdlib.{enomem}
use lamp_userspace.Stdlib.Heap.{
  Block, Heap, arena, header, align4, wanted_of, take_fit, allot, malloc,
}
use lamp_userspace.Stdlib.Heap.Blocks.{
  Tiles, InUse, Fenced, marked, InUse-append, InUse-range, Tiles-marked,
}
use lamp_userspace.Stdlib.Heap.Find.{
  Found, Fits, NoFit, FitResult, take_fit_lem, InUse-taken, not-InUse-free,
}

-- The blocks tile the arena up to `g_heap_end`, and no two free ones follow each other.
pub record IsHeap (h : Heap) : Type 0 where
  pub tiles : Tiles 0 h.blocks h.end
  pub inside : h.end ≤ arena
  pub fenced : Fenced false h.blocks

-- The heap `h'` has the blocks in use of `h` and one more, with `s` bytes at the pointer `p`.
abbrev pub Adds : ℕ → ℕ → Heap → Heap → Type 0
Adds p s h h' =
    (header ≤ p)
    × ((s' : ℕ) → ¬ InUse (p - header) s' h.blocks)
    × ((a' s' : ℕ)
        → InUse a' s' h'.blocks ↔ (InUse a' s' h.blocks ⊎ ((p - header ≡ a') × (s ≡ s'))))

-- What `malloc` must do, with `w` the size as it is rounded: a new block in use that is large
-- enough, or ENOMEM when no free block fits and the arena has no room.
abbrev pub Allots : ℕ → ℕ → Heap → Option ℕ × Heap → Type 0
Allots size w h (some p, h') =
    IsHeap h' × ((s : ℕ) × (size ≤ s) × (0 < s) × Adds p s h h') × (h'.memory ≡ h.memory)
Allots size w h (none, h') =
    (h' ≡ record h { errno = enomem }) × NoFit w h.blocks × (arena < h.end + header + w)

abbrev pub Allocated : ℕ → Heap → Option ℕ × Heap → Type 0
Allocated size h r = Allots size (wanted_of size) h r

Fenced-weaken : (f : Bool) (bs : List Block) → Fenced f bs → Fenced false bs
Fenced-weaken f [] h = tt
Fenced-weaken f (x ∷ bs) h = (refl, h.1)

Fenced-taken :
    (f : Bool) (front : List Block) (b : Block) (back : List Block)
    → Fenced f (front ++ b ∷ back)
    → Fenced f (front ++ marked b false ∷ back)
Fenced-taken f [] b back h = (ground arith, Fenced-weaken b.free back h.1)
Fenced-taken f (x ∷ front) b back h = (h.0, Fenced-taken x.free front b back h.1)

Fenced-append :
    (f : Bool) (bs : List Block) (b : Block)
    → b.free ≡ false
    → Fenced f bs
    → Fenced f (bs ++ b ∷ [])
Fenced-append f [] b used h = (ground arith, tt)
Fenced-append f (x ∷ bs) b used h = (h.0, Fenced-append x.free bs b used h.1)

Tiles-append :
    (a e : ℕ) (bs : List Block) (b : Block)
    → Tiles a bs e
    → b.addr ≡ e
    → b.size % 4 ≡ 0
    → 0 < b.size
    → Tiles a (bs ++ b ∷ []) (e + header + b.size)
Tiles-append a e [] b t at even some_b = (omega arith, even, some_b, omega arith)
Tiles-append a e (x ∷ bs) b t at even some_b =
    (t.0, t.1, t.2, Tiles-append (a + header + x.size) e bs b t.3 at even some_b)

wanted_range :
    (size : ℕ)
    → size ≤ 2 ^ 32 - 16
    → (wanted_of size % 4 ≡ 0)
      × (0 < wanted_of size)
      × (size ≤ wanted_of size)
      × (wanted_of size ≤ 2 ^ 32 - 16)
wanted_range size h = ground arith

abbrev fresh_block : Heap → ℕ → Block
fresh_block h w = record { addr = h.end; size = w; free = false }

InUse-fresh :
    (h : Heap) (w a s : ℕ)
    → InUse a s (h.blocks ++ fresh_block h w ∷ []) ↔ (InUse a s h.blocks ⊎ ((h.end ≡ a) × (w ≡ s)))
InUse-fresh h w a s =
    let (to, from) = InUse-append a s h.blocks (fresh_block h w ∷ []) in
    (
      λ u. elim (to u) [
        | inl old ↦ inl old
        | inr new ↦ elim new [ inl (_, ea, es) ↦ inr (ea, es) | inr z ↦ absurd z ]
      ],
      λ u. from (elim u [ inl old ↦ inl old | inr (ea, es) ↦ inr (inl (refl, ea, es)) ]),
    )

module _ (size w : ℕ) (h : Heap) (enough : size ≤ w) (some_w : 0 < w) (valid : IsHeap h) where
  allot-Found :
      (b : Block) (blocks : List Block)
      → Found (Fits w) false h.blocks b blocks
      → Allots size w h (allot w h (some (b, blocks)))
  unfolding allot
  allot-Found b blocks (front, back, (was_free, large), e, e') =
      let old : Tiles 0 (front ++ b ∷ back) h.end = rw (← e) valid.tiles in
      let at : b.addr + header - header ≡ b.addr = omega arith in
      (
        record {
          tiles = rw e' (Tiles-marked 0 h.end front b false back old);
          inside = valid.inside;
          fenced = rw e' (Fenced-taken false front b back (rw (← e) valid.fenced));
        },
        (
          b.size,
          omega arith,
          omega arith,
          (
            omega arith,
            λ s'. rw (at, e) (not-InUse-free s' h.end 0 front b back was_free old),
            λ a' s'. rw (e', e, at) (InUse-taken a' s' front b back was_free),
          ),
        ),
        refl,
      )

  allot_end : w % 4 ≡ 0 → w ≤ 2 ^ 32 - 16 → NoFit w h.blocks → Allots size w h (allot w h none)
  unfolding allot
  allot_end even bounded nofit =
      let length : align4 (u32 (header + w)) ≡ header + w = omega arith in
      let left : u32 (arena - h.end) ≡ arena - h.end = omega (arith, valid.inside) in
      let at : h.end + header - header ≡ h.end = omega arith in
      let sum : h.end + (header + w) ≡ h.end + header + w = omega arith in
      elim (dec_lt (arena - h.end) (header + w)) [
        | yes full ↦
            rw (length, left, ltb-true (arena - h.end) (header + w) full)
              (refl, nofit, omega (arith, valid.inside))
        | no room ↦
            rw (length, left, ltb-false (arena - h.end) (header + w) (omega arith))
              (
                record {
                  tiles = rw sum (
                      Tiles-append 0 h.end h.blocks (fresh_block h w) valid.tiles refl even some_w);
                  inside = omega (arith, valid.inside);
                  fenced = Fenced-append false h.blocks (fresh_block h w) refl valid.fenced;
                },
                (
                  w,
                  enough,
                  some_w,
                  (
                    omega arith,
                    λ s' u.
                        (let (_, high, some_s) =
                            InUse-range (h.end + header - header) s' h.end 0 h.blocks u
                              valid.tiles in
                          omega arith),
                    λ a' s'. rw at (InUse-fresh h w a' s'),
                  ),
                ),
                refl,
              )
      ]

allot_lem :
    (size w : ℕ) (h : Heap)
    → size ≤ w
    → 0 < w
    → w % 4 ≡ 0
    → w ≤ 2 ^ 32 - 16
    → IsHeap h
    → (r : Option (Block × List Block)) → FitResult w h.blocks r
    → Allots size w h (allot w h r)
allot_lem size w h enough some_w even bounded valid (some (b, blocks)) found =
    allot-Found size w h enough some_w valid b blocks found
allot_lem size w h enough some_w even bounded valid none nofit =
    allot_end size w h enough some_w valid even bounded nofit

-- On a well-formed heap and for a size that stays in a word with its header and rounding, `malloc`
-- keeps the heap well formed and its bytes as they are. It returns a block in use that was not in
-- use before, with room for the size, and leaves all others; or it returns a null pointer with
-- ENOMEM, and then no free block is large enough and the arena has no room for one more.
pub malloc_lem :
    (size : ℕ) (h : Heap) → size ≤ 2 ^ 32 - 16 → IsHeap h → Allocated size h (malloc size h)
unfolding malloc
malloc_lem size h small valid =
    let (even, some_w, enough, bounded) = wanted_range size small in
    allot_lem size (wanted_of size) h enough some_w even bounded valid
      (take_fit (wanted_of size) h.blocks) (take_fit_lem (wanted_of size) h.blocks)
