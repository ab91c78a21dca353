-- ===== src/Stdlib/Heap/Find.antt =====
-- What the searches of `malloc` and `free` find, and the blocks in use after they marked it.
use mathlib.Core.Option
use lamp_userspace.Prelude.{
  ℕ, ◌+◌, ◌≤◌, ◌≡◌, ◌≢◌, ◌⊎◌, ◌↔◌, inl, inr, refl, true, false, Bool, ◌&&◌, leb, arith, List, [],
  ◌∷◌, ◌++◌, Option, none, some, Bool-cases, ap, sym, ==-false, ==_iff,
}
use lamp_userspace.Stdlib.Heap.{Block, header, take_fit, release}
use lamp_userspace.Stdlib.Heap.Blocks.{Tiles, InUse, marked, InUse-range, Tiles-at}

-- The place that `take_fit` or `release` finds.
abbrev pub Found : (Block → Type 0) → Bool → List Block → Block → List Block → Type 0
Found P f bs b bs' =
    (front : List Block) × (back : List Block) × P b
    × (bs ≡ front ++ b ∷ back)
    × (bs' ≡ front ++ marked b f ∷ back)

Found-cons :
    (P : Block → Type 0) (f : Bool) (x b : Block) (bs bs' : List Block)
    → Found P f bs b bs'
    → Found P f (x ∷ bs) b (x ∷ bs')
Found-cons P f x b bs bs' (front, back, p, e, e') =
    (x ∷ front, back, p, ap (λ (t : List Block). x ∷ t) e, ap (λ (t : List Block). x ∷ t) e')

abbrev pub Fits : ℕ → Block → Type 0
Fits wanted b = (b.free ≡ true) × (wanted ≤ b.size)

-- No block fits.
abbrev pub NoFit : ℕ → List Block → Type 0
NoFit wanted [] = Unit {0}
NoFit wanted (b ∷ bs) = (b.free && leb wanted b.size ≡ false) × NoFit wanted bs

abbrev pub FitResult : ℕ → List Block → Option (Block × List Block) → Type 0
FitResult wanted bs none = NoFit wanted bs
FitResult wanted bs (some (b, bs')) = Found (Fits wanted) false bs b bs'

FitResult-cons :
    (wanted : ℕ) (x : Block) (bs : List Block) (r : Option (Block × List Block))
    → (x.free && leb wanted x.size ≡ false)
    → FitResult wanted bs r
    → FitResult wanted (x ∷ bs) (Option.map (λ r. (r.0, x ∷ r.1)) r)
FitResult-cons wanted x bs none over h = (over, h)
FitResult-cons wanted x bs (some (b, bs')) over h = Found-cons (Fits wanted) false x b bs bs' h

pub take_fit_lem : (wanted : ℕ) (bs : List Block) → FitResult wanted bs (take_fit wanted bs)
unfolding take_fit
take_fit_lem wanted [] = tt
take_fit_lem wanted (x ∷ bs) = elim (Bool-cases (x.free && leb wanted x.size)) [
  | inl fits ↦ rw fits ([], bs, ground arith, refl, refl)
  | inr over ↦
      rw over (FitResult-cons wanted x bs (take_fit wanted bs) over (take_fit_lem wanted bs))
]

-- What `release` finds at the address of a block.
abbrev pub Released : ℕ → ℕ → List Block → Option (Block × List Block) → Type 0
Released a s bs none = ⊥
Released a s bs (some (b, bs')) =
    Found (λ b. (b.free ≡ false) × (b.addr ≡ a) × (b.size ≡ s)) true bs b bs'

Released-cons :
    (a s : ℕ) (x : Block) (bs : List Block) (r : Option (Block × List Block))
    → Released a s bs r
    → Released a s (x ∷ bs) (Option.map (λ r. (r.0, x ∷ r.1)) r)
Released-cons a s x bs none h = h
Released-cons a s x bs (some (b, bs')) h =
    Found-cons (λ b. (b.free ≡ false) × (b.addr ≡ a) × (b.size ≡ s)) true x b bs bs' h

pub release_lem :
    (a s e start : ℕ) (bs : List Block)
    → InUse a s bs
    → Tiles start bs e
    → Released a s bs (release a bs)
unfolding release
release_lem a s e start [] u t = absurd u
release_lem a s e start (x ∷ bs) (inl (f, ea, es)) t =
    rw ((==_iff x.addr a).1 ea) ([], bs, (f, ea, es), refl, refl)
release_lem a s e start (x ∷ bs) (inr later) t =
    let (low, _, _) = InUse-range a s e (start + header + x.size) bs later t.3 in
    rw (==-false x.addr a (λ eq. omega arith)) (
      Released-cons a s x bs (release a bs)
        (release_lem a s e (start + header + x.size) bs later t.3))

-- A block that is marked in use is there besides those that were in use.
pub InUse-taken :
    (a s : ℕ) (front : List Block) (b : Block) (back : List Block)
    → b.free ≡ true
    → InUse a s (front ++ marked b false ∷ back)
      ↔ (InUse a s (front ++ b ∷ back) ⊎ ((b.addr ≡ a) × (b.size ≡ s)))
InUse-taken a s [] b back f = (
  λ h. elim h [ inl (_, here, there) ↦ inr (here, there) | inr later ↦ inl (inr later) ],
  λ h. elim h [
    | inr here ↦ inl (refl, here.0, here.1)
    | inl old ↦ elim old [ inl (f', _, _) ↦ cc | inr later ↦ inr later ]
  ],
)
InUse-taken a s (x ∷ front) b back f = (
  λ h. elim h [
    | inl here ↦ inl (inl here)
    | inr later ↦ elim ((InUse-taken a s front b back f).0 later) [
      | inl l ↦ inl (inr l)
      | inr r ↦ inr r
    ]
  ],
  λ h. elim h [
    | inl old ↦ elim old [
      | inl here ↦ inl here
      | inr later ↦ inr ((InUse-taken a s front b back f).1 (inl later))
    ]
    | inr r ↦ inr ((InUse-taken a s front b back f).1 (inr r))
  ],
)

-- The blocks in use after one at `p` was marked free are the others.
pub InUse-freed :
    (a s e start : ℕ) (front : List Block) (b : Block) (back : List Block)
    → Tiles start (front ++ b ∷ back) e
    → InUse a s (front ++ marked b true ∷ back) ↔ (InUse a s (front ++ b ∷ back) × (a ≢ b.addr))
InUse-freed a s e start [] b back t = (
  λ h. elim h [
    | inl (f, _, _) ↦ cc
    | inr later ↦ (
      inr later,
      λ eq.
          let (low, _, _) = InUse-range a s e (start + header + b.size) back later t.3 in
          omega arith,
    )
  ],
  λ h. elim h.0 [ inl (_, here, _) ↦ absurd (h.1 (sym here)) | inr later ↦ inr later ],
)
InUse-freed a s e start (x ∷ front) b back t = (
  λ h. elim h [
    | inl (f, ea, es) ↦ (
      inl (f, ea, es),
      λ eq. let low = Tiles-at (start + header + x.size) e front b back t.3 in omega arith,
    )
    | inr later ↦
        let (old, other) = (InUse-freed a s e (start + header + x.size) front b back t.3).0 later in
        (inr old, other)
  ],
  λ h. elim h.0 [
    | inl here ↦ inl here
    | inr later ↦
        inr ((InUse-freed a s e (start + header + x.size) front b back t.3).1 (later, h.1))
  ],
)

-- A free block is not in use under another size.
pub not-InUse-free :
    (s e start : ℕ) (front : List Block) (b : Block) (back : List Block)
    → b.free ≡ true
    → Tiles start (front ++ b ∷ back) e
    → ¬ InUse b.addr s (front ++ b ∷ back)
not-InUse-free s e start [] b back f t (inl (f', _, _)) = cc
not-InUse-free s e start [] b back f t (inr later) =
    let (low, _, _) = InUse-range b.addr s e (start + header + b.size) back later t.3 in omega arith
not-InUse-free s e start (x ∷ front) b back f t (inl (_, ea, _)) =
    let low = Tiles-at (start + header + x.size) e front b back t.3 in omega arith
not-InUse-free s e start (x ∷ front) b back f t (inr later) =
    not-InUse-free s e (start + header + x.size) front b back f t.3 later
