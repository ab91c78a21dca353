-- ===== src/Misc/Inet.antt =====
-- lib/libc_misc.c, the Internet addresses. An address is the 32-bit word in network order.
pub mod Parts
pub mod RoundTrip
use lamp_userspace.Prelude.{
  ℕ, zero, suc, ◌+◌, ◌*◌, ◌/◌, ◌%◌, ◌^◌, Bool, true, false, not, ◌||◌, ltb, leb, ◌==◌,
  if◌then◌else◌, List, [], ◌∷◌, ◌++◌, length, Option, none, some, u32,
}
use lamp_userspace.Prelude.Text.{codes}
use lamp_userspace.Stdlib.{einval}
use lamp_userspace.Stdlib.Number.{Parsed, strtoul}
use lamp_userspace.Stdio.Decimal.{printed_text}
use lamp_userspace.Stdio.Output.{Out}
use lamp_userspace.Stdio.Directive.{Arg}
use lamp_userspace.Stdio.Format.{Printed, printed, vsnprintf}

-- The compiler's `__builtin_bswap32`, byte by byte.
abbrev pub htonl : ℕ → ℕ
htonl x =
    x % 2 ^ 8 * 2 ^ 24
    + x / 2 ^ 8 % 2 ^ 8 * 2 ^ 16
    + x / 2 ^ 16 % 2 ^ 8 * 2 ^ 8
    + x / 2 ^ 24 % 2 ^ 8

-- The end of a number: `end` is the start of the text, or the value is too large, or the text behind.
abbrev pub part_of : List ℕ → Parsed → Option (ℕ × List ℕ)
part_of p r = elim r.end [
  | none ↦ none
  | some end ↦ if length end == length p || ltb 255 r.value then none else some (r.value, end)
]

-- What follows a number that is not the last one.
abbrev pub behind_dot : List ℕ → Option (List ℕ)
behind_dot [] = none
behind_dot (c ∷ s) = if c == b'.' then some s else none

abbrev pub last_part : Option (ℕ × List ℕ) → Option (List ℕ)
last_part none = none
last_part (some (v, [])) = some (v ∷ [])
last_part (some (v, c ∷ s)) = none

-- The loop, with the numbers that come after the next one.
pub inet_parts : ℕ → List ℕ → Option (List ℕ)
inet_parts left [] = none
inet_parts zero (c ∷ s) = last_part (part_of (c ∷ s) (strtoul (some (c ∷ s)) 10))
inet_parts (suc left) (c ∷ s) = elim (part_of (c ∷ s) (strtoul (some (c ∷ s)) 10)) [
  | none ↦ none
  | some (v, end) ↦ elim (behind_dot end) [
    | none ↦ none
    | some rest ↦ elim (inet_parts left rest) [ none ↦ none | some parts ↦ some (v ∷ parts) ]
  ]
]

abbrev pub join : Option (List ℕ) → Option ℕ
join (some (a ∷ b ∷ c ∷ d ∷ [])) = some (htonl (a * 2 ^ 24 + b * 2 ^ 16 + c * 2 ^ 8 + d))
join _ = none

-- The address that is stored when the result is 1.
pub inet_aton : Option (List ℕ) → Bool → Option ℕ
inet_aton none has_inp = none
inet_aton (some cp) has_inp = if has_inp then join (inet_parts 3 cp) else none

abbrev pub dotted_args : ℕ → List Arg
dotted_args a =
    Arg.word (a / 2 ^ 24 % 2 ^ 8)
    ∷ Arg.word (a / 2 ^ 16 % 2 ^ 8)
    ∷ Arg.word (a / 2 ^ 8 % 2 ^ 8)
    ∷ Arg.word (a % 2 ^ 8)
    ∷ []

-- `snprintf` with the format that both functions use.
abbrev pub print_dotted : ℕ → ℕ → Printed
print_dotted size a = vsnprintf true size (codes "%u.%u.%u.%u") (dotted_args a)

pub inet_ntoa : ℕ → Option (List ℕ)
inet_ntoa s_addr = printed_text (print_dotted 16 (htonl s_addr))

abbrev pub af_inet : ℕ
af_inet = 2

abbrev pub eafnosupport : ℕ
eafnosupport = 97

abbrev pub enospc : ℕ
enospc = 28

-- A failure leaves `dst` as it was or truncated.
pub data Ntop : Type 0 where
  address_text : List ℕ → Ntop
  failed : ℕ → Ntop

abbrev pub fitting : ℕ → Printed → Ntop
fitting size (printed o) = if leb size o.count then failed enospc else address_text o.written
fitting size _ = failed enospc

pub inet_ntop : ℕ → Option ℕ → Bool → ℕ → Ntop
inet_ntop af none has_dst size = failed einval
inet_ntop af (some s_addr) has_dst size =
    if not has_dst || size == 0
    then failed einval
    else if af == af_inet
    then fitting size (print_dotted size (htonl s_addr))
    else failed eafnosupport

pub data Pton : Type 0 where
  address : ℕ → Pton
  no_address : Pton
  bad_call : ℕ → Pton

abbrev pub pton_of : Option ℕ → Pton
pton_of none = no_address
pton_of (some a) = address a

pub inet_pton : ℕ → Option (List ℕ) → Bool → Pton
inet_pton af none has_dst = bad_call einval
inet_pton af (some src) has_dst =
    if not has_dst
    then bad_call einval
    else if af == af_inet
    then pton_of (inet_aton (some src) true)
    else bad_call eafnosupport
