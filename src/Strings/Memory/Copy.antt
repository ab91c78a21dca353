-- ===== src/Strings/Memory/Copy.antt =====
-- The effect of the copying functions at every address.
use lamp_userspace.Prelude.{
  ℕ, zero, suc, ◌+◌, ◌≤◌, ◌<◌, ◌≡◌, ◌⊎◌, inl, inr, refl, ltb, arith, u8, Bool-cases, ◌∙◌, ==-false,
  ==_iff,
}
use native.Mathlib.Decide.{ℕ_discrete}
use lamp_userspace.Strings.Memory.{Memory, store, copy_up, copy_down, memcpy, memmove, fill, memset}

-- `m'` is `m` with the block of `n` bytes from `dst` on replaced by `new`.
abbrev pub Replaced : ℕ → ℕ → (ℕ → ℕ) → Memory → Memory → Type 0
Replaced dst n new m m' =
    ((k : ℕ) → k < n → m' (dst + k) ≡ new k) × ((q : ℕ) → (q < dst) ⊎ (dst + n ≤ q) → m' q ≡ m q)

store-same : (m : Memory) (p v : ℕ) → store m p v p ≡ v
store-same m p v = rw ((==_iff p p).1 refl)

store-other : (m : Memory) (p v q : ℕ) → (p ≡ q → ⊥) → store m p v q ≡ m q
store-other m p v q h = rw (==-false p q h)

-- The bytes that a copy upwards has not written.
copy_up-outside :
    (left i dst src q : ℕ) (m : Memory)
    → (q < dst + i) ⊎ (dst + i + left ≤ q)
    → copy_up left i dst src m q ≡ m q
unfolding copy_up
copy_up-outside zero i dst src q m out = refl
copy_up-outside (suc left) i dst src q m out =
    copy_up-outside left (i + 1) dst src q (store m (dst + i) (m (src + i)))
      (elim out [ inl low ↦ inl (omega arith) | inr high ↦ inr (omega arith) ])
    ∙ store-other m (dst + i) (m (src + i)) q
        (λ e. elim out [ inl low ↦ omega arith | inr high ↦ omega arith ])

-- Neither the write of a round reaches what later rounds read.
abbrev SafeUp : ℕ → ℕ → ℕ → Type 0
SafeUp dst src n = (dst ≤ src) ⊎ (src + n ≤ dst)

copy_up_lem :
    (left i dst src n k : ℕ) (m : Memory)
    → SafeUp dst src n
    → i + left ≡ n
    → i ≤ k
    → k < n
    → copy_up left i dst src m (dst + k) ≡ m (src + k)
unfolding copy_up
copy_up_lem zero i dst src n k m safe e from to = absurd (omega arith)
copy_up_lem (suc left) i dst src n k m safe e from to = elim (ℕ_discrete i k) [
  | yes here ↦
      copy_up-outside left (i + 1) dst src (dst + k) (store m (dst + i) (m (src + i)))
        (inl (omega arith))
      ∙ (rw here (store-same m (dst + k) (m (src + k))))
  | no later ↦
      copy_up_lem left (i + 1) dst src n k (store m (dst + i) (m (src + i))) safe (omega arith)
        (omega arith) to
      ∙ store-other m (dst + i) (m (src + i)) (src + k)
          (λ eq. elim safe [ inl low ↦ omega arith | inr high ↦ omega arith ])
]

copy_down-outside :
    (n dst src q : ℕ) (m : Memory) → (q < dst) ⊎ (dst + n ≤ q) → copy_down n dst src m q ≡ m q
unfolding copy_down
copy_down-outside zero dst src q m out = refl
copy_down-outside (suc n) dst src q m out =
    copy_down-outside n dst src q (store m (dst + n) (m (src + n)))
      (elim out [ inl low ↦ inl low | inr high ↦ inr (omega arith) ])
    ∙ store-other m (dst + n) (m (src + n)) q
        (λ e. elim out [ inl low ↦ omega arith | inr high ↦ omega arith ])

copy_down_lem :
    (n dst src k : ℕ) (m : Memory)
    → src ≤ dst
    → k < n
    → copy_down n dst src m (dst + k) ≡ m (src + k)
unfolding copy_down
copy_down_lem zero dst src k m h to = absurd (omega arith)
copy_down_lem (suc n) dst src k m h to = elim (ℕ_discrete k n) [
  | yes here ↦ rw here (
      copy_down-outside n dst src (dst + n) (store m (dst + n) (m (src + n))) (inr (omega arith))
      ∙ store-same m (dst + n) (m (src + n)))
  | no earlier ↦
      copy_down_lem n dst src k (store m (dst + n) (m (src + n))) h (omega arith)
      ∙ store-other m (dst + n) (m (src + n)) (src + k) (λ e. omega arith)
]

copied_up :
    (dst src n : ℕ) (m : Memory)
    → SafeUp dst src n
    → Replaced dst n (λ k. m (src + k)) m (copy_up n 0 dst src m)
copied_up dst src n m safe = (
  λ k h. copy_up_lem n 0 dst src n k m safe (omega arith) (omega arith) h,
  λ q out.
      copy_up-outside n 0 dst src q m
        (elim out [ inl low ↦ inl (omega arith) | inr high ↦ inr (omega arith) ]),
)

-- `memmove` replaces the destination by what the source held before, however the blocks overlap,
-- and changes no other byte.
pub memmove_lem :
    (dst src n : ℕ) (m : Memory) → Replaced dst n (λ k. m (src + k)) m (memmove dst src n m)
unfolding memmove
memmove_lem dst src n m = elim (Bool-cases (ltb dst src)) [
  | inl below ↦ rw below (copied_up dst src n m (inl (ground arith)))
  | inr above ↦ rw above (
    λ k h. copy_down_lem n dst src k m (ground arith) h,
    λ q out. copy_down-outside n dst src q m out,
  )
]

-- `memcpy` does the same when the blocks do not overlap, and also when the destination starts at
-- the source or before.
pub memcpy_lem :
    (dst src n : ℕ) (m : Memory)
    → (dst ≤ src) ⊎ (src + n ≤ dst)
    → Replaced dst n (λ k. m (src + k)) m (memcpy dst src n m)
unfolding memcpy
memcpy_lem dst src n m safe = copied_up dst src n m safe

fill-outside :
    (left i dst c q : ℕ) (m : Memory)
    → (q < dst + i) ⊎ (dst + i + left ≤ q)
    → fill left i dst c m q ≡ m q
unfolding fill
fill-outside zero i dst c q m out = refl
fill-outside (suc left) i dst c q m out =
    fill-outside left (i + 1) dst c q (store m (dst + i) (u8 c))
      (elim out [ inl low ↦ inl (omega arith) | inr high ↦ inr (omega arith) ])
    ∙ store-other m (dst + i) (u8 c) q
        (λ e. elim out [ inl low ↦ omega arith | inr high ↦ omega arith ])

fill_lem :
    (left i dst c n k : ℕ) (m : Memory)
    → i + left ≡ n
    → i ≤ k
    → k < n
    → fill left i dst c m (dst + k) ≡ u8 c
unfolding fill
fill_lem zero i dst c n k m e from to = absurd (omega arith)
fill_lem (suc left) i dst c n k m e from to = elim (ℕ_discrete i k) [
  | yes here ↦
      fill-outside left (i + 1) dst c (dst + k) (store m (dst + i) (u8 c)) (inl (omega arith))
      ∙ (rw here (store-same m (dst + k) (u8 c)))
  | no later ↦
      fill_lem left (i + 1) dst c n k (store m (dst + i) (u8 c)) (omega arith) (omega arith) to
]

-- `memset` replaces the block by the low byte of the character and changes no other byte.
pub memset_lem : (dst c n : ℕ) (m : Memory) → Replaced dst n (λ k. u8 c) m (memset dst c n m)
unfolding memset
memset_lem dst c n m = (
  λ k h. fill_lem n 0 dst c n k m (omega arith) (omega arith) h,
  λ q out.
      fill-outside n 0 dst c q m
        (elim out [ inl low ↦ inl (omega arith) | inr high ↦ inr (omega arith) ]),
)
