-- ===== src/Stdio/Output.antt =====
-- lib/libc_stdio.c, the output functions below `vsnprintf`. The pointer `*buf` into the text is the list
-- of the bytes written before it; without a buffer the source writes to the descriptor -1, which has
-- no effect but the count. An `int` count is taken to stay in its range.
pub mod Emit
pub mod Digits
pub mod Buffer
use lamp_userspace.Prelude.{
  ℕ, zero, suc, ◌+◌, ◌-◌, ◌/◌, ◌%◌, Bool, true, false, not, ◌&&◌, ltb, ◌==◌, if◌then◌else◌, List,
  [], ◌∷◌, ◌++◌, length, Option, none, some,
}
use lamp_userspace.Prelude.Int.{ℤ, pos, negsuc, is_below_zero, count_of}

pub record Out : Type 0 where
  pub has_buffer : Bool
  pub written : List ℕ
  pub left : ℕ
  pub count : ℕ

unfoldable pub out_char : ℕ → Out → Out
out_char c o =
    if o.has_buffer && ltb 1 o.left
    then record o { written = o.written ++ (c ∷ []); left = o.left - 1; count = o.count + 1 }
    else record o { count = o.count + 1 }

unfoldable pub out_mem : List ℕ → Out → Out
out_mem [] o = o
out_mem (c ∷ s) o = out_mem s (out_char c o)

unfoldable pub out_repeat : ℕ → ℕ → Out → Out
out_repeat c zero o = o
out_repeat c (suc n) o = out_repeat c n (out_char c o)

unfoldable pub out_padded : List ℕ → ℕ → Bool → ℕ → Out → Out
out_padded s width left_adjust pad o =
    let padding = width - length s in
    let before = if not left_adjust then out_repeat pad padding o else o in
    let shown = out_mem s before in if left_adjust then out_repeat b' ' padding shown else shown

-- The digits, the last one first, with the rounds that are left.
unfoldable pub utoa_rev : ℕ → ℕ → ℕ → Bool → List ℕ
utoa_rev zero v base upper = []
utoa_rev (suc left) v base upper =
    let d = v % base in
    let rest = utoa_rev left (v / base) base upper in
    (if ltb d 10 then b'0' + d else (if upper then b'A' else b'a') + d - 10)
    ∷ (if v / base == 0 then [] else rest)

-- `while (ndigits-- > 0) out_char(…, digits[ndigits]);`
unfoldable pub out_back : List ℕ → Out → Out
out_back [] o = o
out_back (d ∷ digits) o = out_char d (out_back digits o)

-- The sign, which is 0 when there is none.
unfoldable pub out_sign : ℕ → Out → Out
out_sign sign o = if sign == 0 then o else out_char sign o

-- The rounds of `utoa_rev` are as many as a word has bits.
abbrev pub word_bits : ℕ
word_bits = 64

abbrev pub digits_shown : ℤ → ℕ → ℕ → Bool → List ℕ
digits_shown (pos zero) zero base upper = []
digits_shown (pos zero) (suc v) base upper = utoa_rev word_bits (suc v) base upper
digits_shown (pos (suc n)) v base upper = utoa_rev word_bits v base upper
digits_shown (negsuc n) v base upper = utoa_rev word_bits v base upper

unfoldable pub out_uint_fmt : ℕ → ℕ → ℕ → Bool → ℕ → Bool → Bool → ℤ → List ℕ → Out → Out
out_uint_fmt v base sign upper width left_adjust zero_pad precision prefix o =
    let digits = digits_shown precision v base upper in
    let zeroes = count_of precision - length digits in
    let total = (if sign == 0 then 0 else 1) + length prefix + zeroes + length digits in
    let pad_count = width - total in
    if zero_pad && not left_adjust && is_below_zero precision
    then out_back digits
        (out_repeat b'0' zeroes (out_repeat b'0' pad_count (out_mem prefix (out_sign sign o))))
    else (let before = if not left_adjust then out_repeat b' ' pad_count o else o in
        let shown =
          out_back digits (out_repeat b'0' zeroes (out_mem prefix (out_sign sign before))) in
        if left_adjust then out_repeat b' ' pad_count shown else shown)
