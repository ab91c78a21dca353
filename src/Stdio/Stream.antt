-- ===== src/Stdio/Stream.antt =====
-- lib/libc_stdio.c, the reading functions of streams. What the system call `read` delivers is a parameter
-- over a state of the system; EOF and a null pointer are `none`, and a null stream has descriptor 1.
-- The sizes given to `fgets` are not negative.
pub mod Contents
pub mod Filling
pub mod Reading
pub mod Lines
use lamp_userspace.Prelude.{
  ℕ, zero, suc, ◌+◌, ◌-◌, ◌*◌, ◌/◌, Bool, true, false, ◌&&◌, ◌||◌, leb, ◌==◌, if◌then◌else◌, List,
  [], ◌∷◌, ◌++◌, length, Option, none, some, u8, u32,
}

pub record File : Type 0 where
  pub fd : ℕ
  pub eof : Bool
  pub err : Bool
  pub pushback : Option ℕ

pub data Read : Type 0 where
  got : List ℕ → Read
  read_error : Read

abbrev pub file_fd : Option File → ℕ
file_fd none = 1
file_fd (some f) = f.fd

abbrev pub set_eof : Option File → Option File
set_eof none = none
set_eof (some f) = some (record f { eof = true })

-- The byte that is pushed back, and the stream without it.
abbrev pub take_pushback : Option File → Option (ℕ × Option File)
take_pushback none = none
take_pushback (some f) = elim f.pushback [
  | none ↦ none
  | some c ↦ some (c, some (record f { pushback = none }))
]

pub clearerr : Option File → Option File
clearerr none = none
clearerr (some f) = some (record f { eof = false; err = false })

pub feof : Option File → Bool
feof none = true
feof (some f) = f.eof

abbrev pub push : ℕ → File → Option ℕ × Option File
push c f = elim f.pushback [
  | some d ↦ (none, some f)
  | none ↦ (some (u8 c), some (record f { pushback = some (u8 c); eof = false }))
]

pub ungetc : Option ℕ → Option File → Option ℕ × Option File
ungetc c none = (none, none)
ungetc none (some f) = (none, some f)
ungetc (some c) (some f) = push c f

module _ {W : Type 0} (read : ℕ → ℕ → W → Read × W) where
  -- What a read of one byte makes of a stream.
  abbrev pub one_byte : Option File → Read × W → Option ℕ × (Option File × W)
  one_byte stream (got (ch ∷ []), w) = (some ch, (stream, w))
  one_byte stream (got [], w) = (none, (set_eof stream, w))
  one_byte stream (got (ch ∷ d ∷ s), w) = (none, (set_eof stream, w))
  one_byte stream (read_error, w) = (none, (set_eof stream, w))

  abbrev pub get_from : Option (ℕ × Option File) → Option File → W → Option ℕ × (Option File × W)
  get_from (some (c, stream')) stream w = (some c, (stream', w))
  get_from none stream w = one_byte stream (read (file_fd stream) 1 w)

  pub fgetc : Option File → W → Option ℕ × (Option File × W)
  fgetc stream w = get_from (take_pushback stream) stream w

  -- The bytes, the stream and the system; `none` without fuel.
  abbrev pub Filled : Type 0
  Filled = Option (List ℕ × (Option File × W))

  abbrev pub behind : List ℕ → Filled → Filled
  behind s none = none
  behind s (some (t, rest)) = some (s ++ t, rest)

  -- One round of the loop in `fread`, `more` being the rounds that follow.
  abbrev pub fill_round :
      ℕ
      → Option (ℕ × Option File)
      → Option File
      → Read × W
      → (ℕ → Option File → W → Filled)
      → W
      → Filled
  fill_round need (some (c, stream')) stream r more w = behind (c ∷ []) (more need stream' w)
  fill_round need none stream (got [], w') more w = some ([], (set_eof stream, w'))
  fill_round need none stream (read_error, w') more w = some ([], (set_eof stream, w'))
  fill_round need none stream (got (c ∷ s), w') more w =
      behind (c ∷ s) (more (need - length s) stream w')

  -- The loop, until `need` bytes more are read.
  pub fill : ℕ → ℕ → Option File → W → Filled
  fill fuel zero stream w = some ([], (stream, w))
  fill zero (suc need) stream w = none
  fill (suc fuel) (suc need) stream w =
      fill_round need (take_pushback stream) stream (read (file_fd stream) (suc need) w) (fill fuel)
        w

  abbrev pub counted : ℕ → Filled → Option (ℕ × (List ℕ × (Option File × W)))
  counted size none = none
  counted size (some (s, rest)) = some (length s / size, (s, rest))

  -- The result, the bytes that are stored at `ptr`, the stream and the system.
  pub fread : ℕ → ℕ → Option File → W → Option (ℕ × (List ℕ × (Option File × W)))
  fread size nmemb stream w =
      let total = u32 (size * nmemb) in
      if size == 0 || nmemb == 0
      then some (0, ([], (stream, w)))
      else counted size (fill total total stream w)

  -- One round of the loop in `fgets`.
  abbrev pub line_round : Read × W → (W → List ℕ × W) → List ℕ × W
  line_round (got (c ∷ []), w) more =
      (let (s, w') = more w in if c == b'\n' then (c ∷ [], w) else (c ∷ s, w'))
  line_round (got [], w) more = ([], w)
  line_round (got (c ∷ d ∷ s), w) more = ([], w)
  line_round (read_error, w) more = ([], w)

  -- The loop, with the room that is left but for the zero.
  pub read_line : ℕ → ℕ → W → List ℕ × W
  read_line zero fd w = ([], w)
  read_line (suc room) fd w = line_round (read fd 1 w) (read_line room fd)

  abbrev pub line_result : List ℕ × W → Option (List ℕ) × W
  line_result ([], w) = (none, w)
  line_result (c ∷ s, w) = (some (c ∷ s), w)

  -- The line in the buffer, and the system; the stream is only read from.
  pub fgets : ℕ → Option File → W → Option (List ℕ) × W
  fgets size stream w =
      if size == 0 then (none, w) else line_result (read_line (size - 1) (file_fd stream) w)
