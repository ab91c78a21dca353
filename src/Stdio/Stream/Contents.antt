-- ===== src/Stdio/Stream/Contents.antt =====
-- A stream stands for the bytes that are still to come: the one pushed back, then what the system gives.
use lamp_userspace.Prelude.{
  ℕ, zero, suc, ◌-◌, ◌≤◌, ◌<◌, ◌≡◌, refl, ap, ◌∙◌, List, [], ◌∷◌, ◌++◌, length, take, drop, Option,
  none, some, arith,
}
use lamp_userspace.Stdio.Stream.{File, Read, got, file_fd, set_eof, take_pushback}

-- A call of `read` delivers a piece from the front of what remains, at most as long as asked for, and
-- nothing only at the end.
pub record Piece {W : Type 0} (remaining : W → List ℕ) (count : ℕ) (w : W) (r : Read × W)
    : Type 0 where
  pub bytes : List ℕ
  pub after : W
  pub result : r ≡ (got bytes, after)
  pub front : remaining w ≡ bytes ++ remaining after
  pub short : length bytes ≤ count
  pub end : bytes ≡ [] → remaining w ≡ []

pub record IsSource {W : Type 0} (read : ℕ → ℕ → W → Read × W) (fd : ℕ) (remaining : W → List ℕ)
    : Type 0 where
  pub piece : (count : ℕ) (w : W) → 0 < count → Piece remaining count w (read fd count w)

abbrev pub pushed : Option File → List ℕ
pushed none = []
pushed (some f) = elim f.pushback [ none ↦ [] | some c ↦ c ∷ [] ]

-- The bytes that are still to come from a stream.
abbrev pub contents : {W : Type 0} → (W → List ℕ) → Option File → W → List ℕ
contents remaining stream w = pushed stream ++ remaining w

pub take-front :
    (xs ys : List ℕ) (n : ℕ) → length xs ≤ n → take n (xs ++ ys) ≡ xs ++ take (n - length xs) ys
take-front [] ys n h = ap (λ (k : ℕ). take k ys) (omega arith)
take-front (x ∷ xs) ys zero h = elim h [ ]
take-front (x ∷ xs) ys (suc n) h =
    ap (λ t. x ∷ t)
      (take-front xs ys n (omega (arith, h)) ∙ ap (λ (k : ℕ). xs ++ take k ys) (omega arith))

pub drop-front :
    (xs ys : List ℕ) (n : ℕ) → length xs ≤ n → drop n (xs ++ ys) ≡ drop (n - length xs) ys
drop-front [] ys n h = ap (λ (k : ℕ). drop k ys) (omega arith)
drop-front (x ∷ xs) ys zero h = elim h [ ]
drop-front (x ∷ xs) ys (suc n) h =
    drop-front xs ys n (omega (arith, h)) ∙ ap (λ (k : ℕ). drop k ys) (omega arith)

-- A stream without a byte pushed back, or the byte and the stream that is left.
pub data Pushed (stream : Option File) : Type 0 where
  nothing : take_pushback stream ≡ none → pushed stream ≡ [] → Pushed stream
  one :
      (c : ℕ) (stream' : Option File)
      → take_pushback stream ≡ some (c, stream')
      → pushed stream ≡ c ∷ []
      → pushed stream' ≡ []
      → file_fd stream' ≡ file_fd stream
      → Pushed stream

pub Pushed-cases : (stream : Option File) → Pushed stream
Pushed-cases none = nothing refl refl
Pushed-cases (some f) = by_pushback f.pushback refl
  where
    by_pushback : (p : Option ℕ) → f.pushback ≡ p → Pushed (some f)
    by_pushback none e = nothing (rw e refl) (rw e refl)
    by_pushback (some c) e =
        one c (some (record f { pushback = none })) (rw e refl) (rw e refl) refl refl

pub pushed-set_eof : (stream : Option File) → pushed (set_eof stream) ≡ pushed stream
pushed-set_eof none = refl
pushed-set_eof (some f) = refl

pub file_fd-set_eof : (stream : Option File) → file_fd (set_eof stream) ≡ file_fd stream
file_fd-set_eof none = refl
file_fd-set_eof (some f) = refl

pub two_or_more : (n : ℕ) → suc (suc n) ≤ 1 → ⊥
two_or_more n h = omega (arith, h)
