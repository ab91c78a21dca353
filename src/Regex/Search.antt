-- ===== src/Regex/Search.antt =====
-- lib/libc_regex.c, `regexec`. What `malloc` returns is an argument: a block for the captures or
-- none, and a block for the marks with whatever stands in it, or none.
pub mod Rounds
pub mod Copies
pub mod Correct
use mathlib.Core.Option
use lamp_userspace.Prelude.{
  ℕ, zero, suc, ◌+◌, ◌-◌, ◌*◌, Bool, true, false, not, ◌&&◌, List, [], ◌∷◌, ltb, ◌==◌,
  if◌then◌else◌, get_or, set, replicate, length, Option, none, some, u32,
}
use lamp_userspace.Regex.{Op, Inst, CompileFlags, ExecFlags, Flags, both_flags, Regex}
use lamp_userspace.Regex.Exec.{Memory, Outcome, run}

abbrev pub reg_nomatch : ℕ
reg_nomatch = 1

abbrev pub reg_badpat : ℕ
reg_badpat = 2

abbrev pub reg_espace : ℕ
reg_espace = 12

-- The instructions up to the first `RE_MATCH`, which `regexec` counts; `none` when there is none.
unfoldable pub upto_match : List Inst → Option (List Inst)
upto_match [] = none
upto_match (i ∷ is) =
    let rest = Option.map (λ js. i ∷ js) (upto_match is) in
    elim i.op [ Op.match ↦ some (i ∷ []) | _ ↦ rest ]

-- `regmatch_t`, with `none` for -1.
pub record Match : Type 0 where
  pub rm_so : Option ℕ
  pub rm_eo : Option ℕ

pub data SearchResult : Type 0 where
  found : List (Option ℕ) → SearchResult
  not_found fault out_of_fuel : SearchResult

-- The test of what `re_run` returns, and the rest of the loop.
pub after_round : Outcome → (List ℕ → SearchResult) → SearchResult
after_round (Outcome.matched m) rest = found m.captures
after_round (Outcome.failed m) rest = rest m.generations
after_round Outcome.fault rest = fault
after_round Outcome.out_of_fuel rest = out_of_fuel

module _ (program : List Inst) (text : List ℕ) (flags : Flags) (slots : ℕ) where
  abbrev pub states : ℕ
  states = length program * (length text + 1)

  -- The marks and the generation of the next round; a counter that wraps clears the marks.
  abbrev pub next_generation : ℕ → List ℕ → ℕ × List ℕ
  next_generation generation marks =
      if u32 (generation + 1) == 0 then (1, replicate states 0) else (u32 (generation + 1), marks)

  abbrev pub fresh_captures : ℕ → List (Option ℕ)
  fresh_captures start = set (replicate slots none) 0 (some start)

  -- The loop over the start positions, with the count of those that are left.
  unfoldable pub search : ℕ → ℕ → ℕ → List ℕ → SearchResult
  unfolding after_round
  search zero start generation marks = not_found
  search (suc left) start generation marks =
      let (g, clean) = next_generation generation marks in
      after_round
        (run program text flags (states + 1) g 0 start
          (record { captures = fresh_captures start; generations = clean }))
        (λ marks'. search left (start + 1) g marks')

-- `pmatch[i]` for `left` entries from `i` on.
unfoldable pub copy_matches : ℕ → ℕ → List (Option ℕ) → List Match → List Match
copy_matches zero i captures pmatch = pmatch
copy_matches (suc left) i captures pmatch = copy_matches left (i + 1) captures (
    set pmatch i
      (record { rm_so = get_or captures (i * 2) none; rm_eo = get_or captures (i * 2 + 1) none }))

-- How `regexec` ends: with its result and the contents of `pmatch`.
pub data Returned : Type 0 where
  returns : ℕ → Option (List Match) → Returned
  crash no_fuel : Returned

unfoldable pub report : Regex → ℕ → Option (List Match) → SearchResult → Returned
report preg nmatch pmatch not_found = returns reg_nomatch pmatch
report preg nmatch pmatch fault = crash
report preg nmatch pmatch out_of_fuel = no_fuel
report preg nmatch none (found captures) = returns 0 none
report preg nmatch (some matches) (found captures) =
    if preg.re_cflags.nosub
    then returns 0 (some matches)
    else returns 0 (
        some (
          copy_matches (if ltb (preg.re_nsub + 1) nmatch then preg.re_nsub + 1 else nmatch) 0
            captures matches))

-- `regexec` behind its tests for null pointers.
unfoldable pub regexec :
    Regex → List ℕ → ℕ → Option (List Match) → ExecFlags → Bool → Option (List ℕ) → Returned
regexec preg string nmatch pmatch eflags captures_block marks_block = elim preg.re_program [
  | none ↦ returns reg_badpat pmatch
  | some all ↦ elim (upto_match all) [
    | none ↦ crash
    | some program ↦ elim marks_block [
      | none ↦ returns reg_espace pmatch
      | some marks ↦
          let slots = (preg.re_nsub + 1) * 2 in
          if captures_block
          then report preg nmatch pmatch (
              search program string (both_flags preg.re_cflags eflags) slots (length string + 1) 0 0
                marks)
          else returns reg_espace pmatch
    ]
  ]
]
