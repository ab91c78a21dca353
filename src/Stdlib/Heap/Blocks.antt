-- ===== src/Stdlib/Heap/Blocks.antt =====
-- The invariant of the heap: the blocks tile the arena from its start to `g_heap_end`.
use lamp_userspace.Prelude.{
  ℕ, ◌+◌, ◌%◌, ◌≤◌, ◌<◌, ◌≡◌, ◌⊎◌, ◌↔◌, inl, inr, false, Bool, ◌&&◌, arith, List, [], ◌∷◌, ◌++◌,
}
use lamp_userspace.Stdlib.Heap.{Block, header}

-- From `a` to `e` one block follows the other, each with room for four bytes or more.
abbrev pub Tiles : ℕ → List Block → ℕ → Type 0
Tiles a [] e = a ≡ e
Tiles a (b ∷ bs) e =
    (b.addr ≡ a) × (b.size % 4 ≡ 0) × (0 < b.size) × Tiles (a + header + b.size) bs e

-- There is a block in use at `a` with `s` bytes.
abbrev pub InUse : ℕ → ℕ → List Block → Type 0
InUse a s [] = ⊥
InUse a s (b ∷ bs) = ((b.free ≡ false) × (b.addr ≡ a) × (b.size ≡ s)) ⊎ InUse a s bs

-- No two free blocks follow each other.
abbrev pub Fenced : Bool → List Block → Type 0
Fenced f [] = Unit {0}
Fenced f (b ∷ bs) = (f && b.free ≡ false) × Fenced b.free bs

abbrev pub marked : Block → Bool → Block
marked b f = record b { free = f }

pub InUse-append :
    (a s : ℕ) (xs ys : List Block) → InUse a s (xs ++ ys) ↔ (InUse a s xs ⊎ InUse a s ys)
InUse-append a s [] ys = (λ h. inr h, λ h. elim h [ inl z ↦ absurd z | inr h' ↦ h' ])
InUse-append a s (x ∷ xs) ys = (
  λ h. elim h [
    | inl here ↦ inl (inl here)
    | inr later ↦ elim ((InUse-append a s xs ys).0 later) [ inl l ↦ inl (inr l) | inr r ↦ inr r ]
  ],
  λ h. elim h [
    | inl l ↦ elim l [
      | inl here ↦ inl here
      | inr later ↦ inr ((InUse-append a s xs ys).1 (inl later))
    ]
    | inr r ↦ inr ((InUse-append a s xs ys).1 (inr r))
  ],
)

pub Tiles-marked :
    (a e : ℕ) (front : List Block) (b : Block) (f : Bool) (back : List Block)
    → Tiles a (front ++ b ∷ back) e
    → Tiles a (front ++ marked b f ∷ back) e
Tiles-marked a e [] b f back t = t
Tiles-marked a e (x ∷ front) b f back t =
    (t.0, t.1, t.2, Tiles-marked (a + header + x.size) e front b f back t.3)

pub Tiles-le : (start e : ℕ) (bs : List Block) → Tiles start bs e → start ≤ e
Tiles-le start e [] t = omega arith
Tiles-le start e (x ∷ bs) t = omega (arith, Tiles-le (start + header + x.size) e bs t.3)

-- A block in use lies in the tiled range.
pub InUse-range :
    (a s e start : ℕ) (bs : List Block)
    → InUse a s bs
    → Tiles start bs e
    → (start ≤ a) × (a + header + s ≤ e) × (0 < s)
InUse-range a s e start [] u t = absurd u
InUse-range a s e start (x ∷ bs) (inl (f, ea, es)) t =
    let below = Tiles-le (start + header + x.size) e bs t.3 in
    (omega arith, omega arith, omega arith)
InUse-range a s e start (x ∷ bs) (inr later) t =
    let (low, high, some_s) = InUse-range a s e (start + header + x.size) bs later t.3 in
    (omega arith, high, some_s)

pub Tiles-at :
    (start e : ℕ) (front : List Block) (b : Block) (back : List Block)
    → Tiles start (front ++ b ∷ back) e
    → start ≤ b.addr
Tiles-at start e [] b back t = omega arith
Tiles-at start e (x ∷ front) b back t =
    omega (arith, Tiles-at (start + header + x.size) e front b back t.3)
