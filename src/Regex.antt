-- ===== src/Regex.antt =====
-- lib/libc_regex.c: a compiler from POSIX patterns to a small instruction set, and a backtracking
-- matcher that visits each state once. This file has the instructions and the character classes.
pub mod Exec
pub mod Nfa
pub mod Search
pub mod Compile
mod Tests
use lamp_userspace.Prelude.{
  ℕ, suc, ◌+◌, ◌-◌, ◌^◌, Bool, true, false, not, ◌&&◌, ◌||◌, List, [], ◌∷◌, map, ◌==◌, Option,
  if◌then◌else◌, get_or, set, replicate, u8, ◌>>>◌, bit_and, bit_or,
}
use lamp_userspace.Ctype.{tolower, toupper}

pub data Op : Type 0 where
  char any class split jmp save bol eol wordb not_wordb match : Op

-- The targets `x` and `y` are `int` in the source and never negative.
pub record Inst : Type 0 where
  pub op : Op
  pub ch : ℕ
  pub set : List ℕ
  pub x : ℕ
  pub y : ℕ

-- The bits of `cflags` and of `eflags`.
pub record CompileFlags : Type 0 where
  pub extended : Bool
  pub icase : Bool
  pub newline : Bool
  pub nosub : Bool

pub record ExecFlags : Type 0 where
  pub notbol : Bool
  pub noteol : Bool

-- What `re_run` gets of both.
pub record Flags : Type 0 where
  pub icase : Bool
  pub newline : Bool
  pub notbol : Bool
  pub noteol : Bool

abbrev pub both_flags : CompileFlags → ExecFlags → Flags
both_flags c e = record {
  icase = c.icase;
  newline = c.newline;
  notbol = e.notbol;
  noteol = e.noteol;
}

-- `regex_t`; `none` is the null pointer that a failed `regcomp` leaves.
pub record Regex : Type 0 where
  pub re_program : Option (List Inst)
  pub re_nsub : ℕ
  pub re_cflags : CompileFlags

-- Thirty-two bytes, a bit for each character.
abbrev pub empty_set : List ℕ
empty_set = replicate 32 0

abbrev pub blank : Op → Inst
blank op = record { op = op; ch = 0; set = empty_set; x = 0; y = 0 }

pub set_char : List ℕ → ℕ → List ℕ
set_char s ch = set s (ch >>> 3) (u8 (bit_or (get_or s (ch >>> 3) 0) (2 ^ bit_and ch 7)))

-- The test `set[ch >> 3] & (1 << (ch & 7))`.
has_char : List ℕ → ℕ → Bool
has_char s ch = not (bit_and (get_or s (ch >>> 3) 0) (2 ^ bit_and ch 7) == 0)

pub class_match : List ℕ → ℕ → Bool → Bool
unfolding has_char tolower toupper
class_match s ch icase =
    has_char s ch || icase && (has_char s (tolower ch) || has_char s (toupper ch))
