-- ===== src/Stdlib/Heap/Merge.antt =====
-- `free` joins the free blocks that follow each other.
use lamp_userspace.Prelude.{
  ℕ, ◌+◌, ◌%◌, ◌≤◌, ◌≡◌, ◌↔◌, inl, inr, refl, false, Bool, ◌&&◌, arith, u32, List, [], ◌∷◌,
  Bool-cases,
}
use lamp_userspace.Stdlib.Heap.{Block, arena, header, align4, merge_into, merge}
use lamp_userspace.Stdlib.Heap.Blocks.{Tiles, InUse, Fenced, Tiles-le}

-- The length of a block with its header is a multiple of four and does not wrap in the arena.
joined :
    (p b : Block) (e : ℕ)
    → b.size % 4 ≡ 0
    → p.addr + header + p.size + header + b.size ≤ e
    → e ≤ arena
    → u32 (p.size + align4 (u32 (header + b.size))) ≡ p.size + header + b.size
joined p b e even inside small =
    let one : align4 (u32 (header + b.size)) ≡ header + b.size = omega arith in rw one (omega arith)

abbrev longer : Block → Block → Block
longer p b = record p { size = u32 (p.size + align4 (u32 (header + b.size))) }

merge_into-Tiles :
    (a e : ℕ) (p : Block) (bs : List Block)
    → e ≤ arena
    → Tiles a (p ∷ bs) e
    → Tiles a (merge_into p bs) e
unfolding merge_into
merge_into-Tiles a e p [] small t = t
merge_into-Tiles a e p (b ∷ bs) small t = elim (Bool-cases (p.free && b.free)) [
  | inl both ↦
      let room = Tiles-le (a + header + p.size + header + b.size) e bs t.3.3 in
      let size = joined p b e t.3.1 (omega arith) small in
      let place : a + header + (p.size + header + b.size) ≡ a + header + p.size + header + b.size =
        omega arith in
      rw both (
        merge_into-Tiles a e (longer p b) bs small
          (t.0, rw size (omega arith), rw size (omega arith), rw (size, place) t.3.3))
  | inr apart ↦ rw apart (t.0, t.1, t.2, merge_into-Tiles (a + header + p.size) e b bs small t.3)
]

merge_into-InUse :
    (a s : ℕ) (p : Block) (bs : List Block) → InUse a s (merge_into p bs) ↔ InUse a s (p ∷ bs)
unfolding merge_into
merge_into-InUse a s p [] = (λ h. h, λ h. h)
merge_into-InUse a s p (b ∷ bs) = elim (Bool-cases (p.free && b.free)) [
  | inl both ↦ rw both (
      let (to, from) = merge_into-InUse a s (longer p b) bs in
      (
        λ h. elim (to h) [ inl (f, _, _) ↦ ground arith | inr later ↦ inr (inr later) ],
        λ h. from (elim h [
          | inl (f, _, _) ↦ ground arith
          | inr later ↦ elim later [ inl (f, _, _) ↦ ground arith | inr l ↦ inr l ]
        ]),
      ))
  | inr apart ↦ rw apart (
      let (to, from) = merge_into-InUse a s b bs in
      (
        λ h. elim h [ inl here ↦ inl here | inr later ↦ inr (to later) ],
        λ h. elim h [ inl here ↦ inl here | inr later ↦ inr (from later) ],
      ))
]

-- The first block keeps its mark, and what follows is fenced.
merge_into-Fenced :
    (f : Bool) (p : Block) (bs : List Block) → (f && p.free ≡ false) → Fenced f (merge_into p bs)
unfolding merge_into
merge_into-Fenced f p [] h = (h, tt)
merge_into-Fenced f p (b ∷ bs) h = elim (Bool-cases (p.free && b.free)) [
  | inl both ↦ rw both (merge_into-Fenced f (longer p b) bs h)
  | inr apart ↦ rw apart (h, merge_into-Fenced p.free b bs apart)
]

pub merge-Tiles : (e : ℕ) (bs : List Block) → e ≤ arena → Tiles 0 bs e → Tiles 0 (merge bs) e
unfolding merge
merge-Tiles e [] small t = t
merge-Tiles e (b ∷ bs) small t = merge_into-Tiles 0 e b bs small t

pub merge-InUse : (a s : ℕ) (bs : List Block) → InUse a s (merge bs) ↔ InUse a s bs
unfolding merge
merge-InUse a s [] = (λ h. h, λ h. h)
merge-InUse a s (b ∷ bs) = merge_into-InUse a s b bs

pub merge-Fenced : (bs : List Block) → Fenced false (merge bs)
unfolding merge
merge-Fenced [] = tt
merge-Fenced (b ∷ bs) = merge_into-Fenced false b bs refl
