-- ===== src/Regex/Exec.antt =====
-- lib/libc_regex.c, `re_run` and `regexec`. The captures and the visit marks are arrays that the
-- recursion shares; a read or write outside them is a fault. The recursion takes fuel.
pub mod Marks
pub mod Moves
pub mod Shows
pub mod Cases
pub mod Run
use lamp_userspace.Prelude.{
  ℕ, zero, suc, ◌+◌, ◌-◌, ◌*◌, ◌^◌, Bool, true, false, not, ◌&&◌, ◌||◌, List, [], ◌∷◌, leb, ltb,
  ◌==◌, if◌then◌else◌, get_or, get_elem?, set, replicate, length, Option, none, some, u32,
}
use lamp_userspace.Ctype.{tolower, isalnum}
use lamp_userspace.Regex.{Op, Inst, Flags, class_match}
use mathlib.Core.Bool.{xor}

-- `captures` holds offsets, with `none` for the -1 of the source.
pub record Memory : Type 0 where
  pub captures : List (Option ℕ)
  pub generations : List ℕ

-- How a call of `re_run` ends: it returns 1 or 0, or it leaves an array.
pub data Outcome : Type 0 where
  matched : Memory → Outcome
  failed : Memory → Outcome
  fault out_of_fuel : Outcome

abbrev pub is_word : ℕ → Bool
is_word ch = isalnum ch || ch == b'_'

-- What follows the recursive calls of `RE_SPLIT` and `RE_SAVE`.
pub or_else : Outcome → (Memory → Outcome) → Outcome
or_else (failed m) k = k m
or_else (matched m) k = matched m
or_else fault k = fault
or_else out_of_fuel k = out_of_fuel

-- The index of a state among the marks.
abbrev pub state_of : List ℕ → ℕ → ℕ → ℕ
state_of text pc pos = pc * (length text + 1) + pos

module _ (text : List ℕ) (flags : Flags) where
  -- `text[pos]`, with the terminator at the end.
  abbrev pub byte : ℕ → ℕ
  byte pos = get_or text pos 0

  -- The tests of the three instructions that consume a character.
  unfoldable pub consumes : Inst → ℕ → Bool
  unfolding tolower
  consumes i pos = elim i.op [
    | Op.char ↦
        ltb pos (length text)
        && (if flags.icase then tolower (byte pos) == tolower i.ch else byte pos == i.ch)
    | Op.any ↦ ltb pos (length text) && not (flags.newline && byte pos == 10)
    | Op.class ↦ ltb pos (length text) && class_match i.set (byte pos) flags.icase
    | _ ↦ false
  ]

  abbrev pub word_boundary : ℕ → Bool
  word_boundary pos =
      xor (ltb 0 pos && is_word (byte (pos - 1))) (ltb pos (length text) && is_word (byte pos))

  -- The tests of the instructions that look at the position alone.
  pub holds : Inst → ℕ → Bool
  unfolding isalnum
  holds i pos = elim i.op [
    | Op.bol ↦ if pos == 0 then not flags.notbol else flags.newline && byte (pos - 1) == 10
    | Op.eol ↦ if pos == length text then not flags.noteol else flags.newline && byte pos == 10
    | Op.wordb ↦ word_boundary pos
    | Op.not_wordb ↦ not (word_boundary pos)
    | _ ↦ false
  ]

  module _ (next : ℕ → ℕ → Memory → Outcome) (i : Inst) (pc pos : ℕ) (m : Memory) where
    abbrev advance : Outcome
    advance = if consumes i pos then next (pc + 1) (pos + 1) m else failed m

    abbrev check : Outcome
    check = if holds i pos then next (pc + 1) pos m else failed m

    pub save_offset : Option (Option ℕ) → Outcome
    save_offset none = fault
    save_offset (some old) =
        or_else (next (pc + 1) pos (record m { captures = set m.captures i.x (some pos) }))
          (λ m'. failed (record m' { captures = set m'.captures i.x old }))

    -- The `switch` of `re_run`, over its recursive call `next`.
    unfoldable pub dispatch : Op → Outcome
    unfolding or_else save_offset
    dispatch Op.char = advance
    dispatch Op.any = advance
    dispatch Op.class = advance
    dispatch Op.split = or_else (next i.x pos m) (λ m'. next i.y pos m')
    dispatch Op.jmp = next i.x pos m
    dispatch Op.save = save_offset (get_elem? m.captures i.x)
    dispatch Op.bol = check
    dispatch Op.eol = check
    dispatch Op.wordb = check
    dispatch Op.not_wordb = check
    dispatch Op.match = matched m

module _ (program : List Inst) (text : List ℕ) (flags : Flags) where
  -- `re_run`. Each call that gets past the test of the marks sets a new one, so that the number of
  -- states bounds the depth.
  unfoldable pub run : ℕ → ℕ → ℕ → ℕ → Memory → Outcome
  run zero generation pc pos m = out_of_fuel
  run (suc fuel) generation pc pos m = elim (get_elem? program pc) [
    | none ↦ failed m
    | some i ↦ elim (get_elem? m.generations (state_of text pc pos)) [
      | none ↦ fault
      | some mark ↦
          let rest =
            dispatch text flags (run fuel generation) i pc pos
              (record m { generations = set m.generations (state_of text pc pos) generation })
              i.op in
          if mark == generation then failed m else rest
    ]
  ]
