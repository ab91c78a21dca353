-- ===== src/Stdlib/Heap/Release.antt =====
-- `free` keeps the heap well formed and takes one block out of use.
use mathlib.Core.Option
use lamp_userspace.Prelude.{
  ℕ, ◌-◌, ◌≤◌, ◌≡◌, ◌≢◌, ◌↔◌, refl, true, arith, List, ◌∷◌, ◌++◌, Option, none, some, ltb-false,
  leb-false,
}
use lamp_userspace.Stdlib.Heap.{Block, Heap, header, release, merge, free}
use lamp_userspace.Stdlib.Heap.Blocks.{Tiles, InUse, InUse-range, Tiles-marked}
use lamp_userspace.Stdlib.Heap.Find.{Released, release_lem, InUse-freed}
use lamp_userspace.Stdlib.Heap.Merge.{merge-Tiles, merge-InUse, merge-Fenced}
use lamp_userspace.Stdlib.Heap.Allocate.{IsHeap}

-- What `free` must do: the block at `p` is no longer in use, all others are.
abbrev pub Freed : ℕ → Heap → Option Heap → Type 0
Freed p h none = ⊥
Freed p h (some h') =
    IsHeap h'
    × (h'.memory ≡ h.memory)
    × ((a s : ℕ) → InUse a s h'.blocks ↔ (InUse a s h.blocks × (a ≢ p - header)))

freed_lem :
    (p s : ℕ) (h : Heap)
    → IsHeap h
    → (r : Option (Block × List Block)) → Released (p - header) s h.blocks r
    → Freed p h (Option.map (λ r. record h { blocks = merge r.1 }) r)
freed_lem p s h valid none found = found
freed_lem p s h valid (some (b, bs)) (front, back, (used, at, _), e, e') =
    let old : Tiles 0 (front ++ b ∷ back) h.end = rw (← e) valid.tiles in
    let tiles : Tiles 0 bs h.end = rw e' (Tiles-marked 0 h.end front b true back old) in
    (
      record {
        tiles = merge-Tiles h.end bs valid.inside tiles;
        inside = valid.inside;
        fenced = merge-Fenced bs;
      },
      refl,
      λ a' s'.
          let (to, from) = merge-InUse a' s' bs in
          let others : InUse a' s' bs ↔ (InUse a' s' h.blocks × (a' ≢ p - header)) =
            rw (e', e, ← at) (InUse-freed a' s' h.end 0 front b back old) in
          (λ u. others.0 (to u), λ u. from (others.1 u)),
    )

-- On a well-formed heap and for a pointer to a block in use, `free` ends without a stray write and
-- keeps the heap well formed, with no two free blocks next to each other, and its bytes as they
-- are. That block is no longer in use, and all others are.
pub free_lem :
    (p s : ℕ) (h : Heap)
    → IsHeap h
    → header ≤ p
    → InUse (p - header) s h.blocks
    → Freed p h (free (some p) h)
unfolding free
free_lem p s h valid low u =
    let (_, high, some_s) = InUse-range (p - header) s h.end 0 h.blocks u valid.tiles in
    rw (ltb-false p header low, leb-false h.end p (omega arith))
      (freed_lem p s h valid (release (p - header) h.blocks)
        (release_lem (p - header) s h.end 0 h.blocks u valid.tiles))
