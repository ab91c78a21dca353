-- ===== src/Stdio/Scan.antt =====
-- lib/libc_stdio.c, `sscanf`. What it stores through its arguments is a list, in their order; a byte
-- past the end of a text reads as 0. The numbers for the width stay in the range of `int`.
pub mod Number
pub mod Decimal
use lamp_userspace.Stdio.Unsigned.{
  auto_base, below, choose_base, digits_in, is_blank, is_x, scan_digit, scan_digits, scan_unsigned,
  skip_blanks, skip_plus, skip_prefix, some_digits,
}
use lamp_userspace.Prelude.{
  ℕ, zero, suc, ◌+◌, ◌-◌, ◌*◌, ◌^◌, Bool, true, false, not, ◌&&◌, ◌||◌, ltb, leb, ◌==◌,
  if◌then◌else◌, List, [], ◌∷◌, ◌++◌, length, take, drop, Option, none, some, u32, u64,
}

-- A store through an argument. `chars` has no zero behind it.
pub data Stored : Type 0 where
  word : ℕ → Stored
  double_word : ℕ → Stored
  chars : List ℕ → Stored
  text : List ℕ → Stored

pub record Scan : Type 0 where
  pub input : List ℕ
  pub assigned : ℕ
  pub stored : List Stored

-- One round of the loop: on with the rest of the format, or the end.
pub data Round : Type 0 where
  go : List ℕ → Scan → Round
  stop : Scan → Round

pub record Spec : Type 0 where
  pub suppress : Bool
  pub width : ℕ
  pub size : ℕ

abbrev pub store : Spec → Stored → Scan → Scan
store spec v st =
    if spec.suppress
    then st
    else record st { assigned = st.assigned + 1; stored = st.stored ++ (v ∷ []) }

-- A store that is not counted.
abbrev pub put : Spec → Stored → Scan → Scan
put spec v st = if spec.suppress then st else record st { stored = st.stored ++ (v ∷ []) }

abbrev pub by_size : Spec → ℕ → Stored
by_size spec value = if spec.size == 2 then double_word (u64 value) else word (u32 value)

pub scan_chars : Spec → List ℕ → Scan → Round
scan_chars spec fmt st =
    let count = if spec.width == 0 then 1 else spec.width in
    let found = take count st.input in
    if ltb (length found) count
    then stop (put spec (chars found) st)
    else go fmt (store spec (chars found) (record st { input = drop count st.input }))

-- The bytes up to a blank, `width` at most when it is not 0, counted by `count`.
unfoldable pub word_length : ℕ → ℕ → List ℕ → ℕ
word_length width count [] = count
word_length width count (c ∷ s) =
    let more = word_length width (count + 1) s in
    if not (is_blank c) && (width == 0 || ltb count width) then more else count

unfoldable pub scan_text : Spec → List ℕ → Scan → Round
scan_text spec fmt st =
    let input = skip_blanks st.input in
    let count = word_length spec.width 0 input in
    if count == 0
    then stop (record st { input = input })
    else go fmt (store spec (text (take count input)) (record st { input = drop count input }))

-- `str` is the whole text, for the offset.
unfoldable pub scan_offset : List ℕ → Spec → List ℕ → Scan → Round
scan_offset str spec fmt st = go fmt (put spec (by_size spec (length str - length st.input)) st)

-- The sign of a signed conversion, and what follows it.
abbrev pub scan_sign : Bool → List ℕ → Bool × List ℕ
scan_sign is_signed [] = (false, [])
scan_sign is_signed (c ∷ s) =
    if is_signed && (c == b'-' || c == b'+') then (c == b'-', s) else (false, c ∷ s)

abbrev pub number_base : ℕ → ℕ
number_base c =
    if c == b'o'
    then 8
    else if c == b'x' || c == b'X' || c == b'p'
    then 16
    else if c == b'i'
    then 0
    else 10

abbrev pub number_of : Spec → ℕ → ℕ → Stored
number_of spec c value = if c == b'p' then word (u32 value) else by_size spec value

abbrev pub store_number : Spec → ℕ → List ℕ → Scan → Bool → Option (ℕ × List ℕ) → Round
store_number spec c fmt st negative none = stop st
store_number spec c fmt st negative (some (value, rest)) =
    let signed = if negative then u64 (2 ^ 64 - value) else value in
    go fmt (store spec (number_of spec c signed) (record st { input = rest }))

unfoldable pub scan_number : Spec → ℕ → List ℕ → Scan → Round
scan_number spec c fmt st =
    let (negative, input) = scan_sign (c == b'd' || c == b'i') (skip_blanks st.input) in
    store_number spec c fmt st negative (scan_unsigned input spec.width (number_base c))

-- `*input` is not the byte.
abbrev pub match_byte : ℕ → List ℕ → Scan → Round
match_byte c fmt st = elim st.input [
  | [] ↦ stop st
  | d ∷ s ↦ if d == c then go fmt (record st { input = s }) else stop st
]

abbrev pub is_number : ℕ → Bool
is_number c =
    c == b'd' || c == b'i' || c == b'u' || c == b'x' || c == b'X' || c == b'o' || c == b'p'

-- A format that ends here has no conversion.
unfoldable pub convert : List ℕ → Spec → List ℕ → Scan → Round
convert str spec [] st = stop st
convert str spec (c ∷ fmt) st =
    if c == b'%'
    then match_byte b'%' fmt st
    else if c == b'c'
    then scan_chars spec fmt st
    else if c == b's'
    then scan_text spec fmt st
    else if c == b'n'
    then scan_offset str spec fmt st
    else if is_number c
    then scan_number spec c fmt st
    else stop st

abbrev pub read_suppress : List ℕ → Bool × List ℕ
read_suppress [] = (false, [])
read_suppress (c ∷ fmt) = if c == b'*' then (true, fmt) else (false, c ∷ fmt)

unfoldable pub read_width : ℕ → List ℕ → ℕ × List ℕ
read_width n [] = (n, [])
read_width n (c ∷ fmt) =
    let rest = read_width (n * 10 + (c - b'0')) fmt in
    if leb b'0' c && leb c b'9' then rest else (n, c ∷ fmt)

abbrev pub read_size : List ℕ → ℕ × List ℕ
read_size [] = (0, [])
read_size (c ∷ []) = if c == b'l' then (1, []) else (0, c ∷ [])
read_size (c ∷ d ∷ fmt) =
    if c == b'l' then (if d == b'l' then (2, fmt) else (1, d ∷ fmt)) else (0, c ∷ d ∷ fmt)

-- What follows a percent sign.
unfoldable pub directive : List ℕ → List ℕ → Scan → Round
directive str fmt st =
    let (suppress, fmt1) = read_suppress fmt in
    let (width, fmt2) = read_width 0 fmt1 in
    let (size, fmt3) = read_size fmt2 in
    convert str (record { suppress = suppress; width = width; size = size }) fmt3 st

unfoldable pub round : List ℕ → ℕ → List ℕ → Scan → Round
round str c fmt st =
    if is_blank c
    then go (skip_blanks fmt) (record st { input = skip_blanks st.input })
    else if not (c == b'%')
    then match_byte c fmt st
    else directive str fmt st

pub data Scanned : Type 0 where
  scanned : ℕ → List Stored → Scanned
  out_of_fuel : Scanned

unfoldable pub scan_loop : List ℕ → ℕ → List ℕ → Scan → Scanned
scan_loop str fuel [] st = scanned st.assigned st.stored
scan_loop str zero (c ∷ fmt) st = out_of_fuel
scan_loop str (suc fuel) (c ∷ fmt) st = elim (round str c fmt st) [
  | stop st' ↦ scanned st'.assigned st'.stored
  | go rest st' ↦ scan_loop str fuel rest st'
]

-- The result and the stores; a null text or format stores nothing.
unfoldable pub sscanf : Option (List ℕ) → Option (List ℕ) → Scanned
sscanf (some str) (some fmt) =
    scan_loop str (length fmt) fmt (record { input = str; assigned = 0; stored = [] })
sscanf none fmt = scanned 0 []
sscanf (some str) none = scanned 0 []
