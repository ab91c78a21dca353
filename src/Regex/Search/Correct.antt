-- ===== src/Regex/Search/Correct.antt =====
-- `regexec` finds a match that starts as far to the left as any.
use lamp_userspace.Prelude.{
  ℕ, suc, ◌+◌, ◌*◌, ◌^◌, ◌≤◌, ◌<◌, ◌≡◌, ◌⊎◌, inl, inr, refl, ap, true, Bool-cases, List, ◌∷◌,
  replicate, set, length, Option, none, some, ltb, arith, if◌then◌else◌,
}
use lamp_userspace.Regex.{Inst, Flags, ExecFlags, both_flags, Regex}
use lamp_userspace.Regex.Nfa.{Accepts, Records}
use lamp_userspace.Regex.Exec.Shows.{SavesWithin}
use lamp_userspace.Regex.Search.{
  SearchResult, Match, Returned, returns, report, copy_matches, fresh_captures, regexec, upto_match,
  reg_nomatch,
}
use lamp_userspace.Regex.Search.Copies.{Written, copied_lem}
use lamp_userspace.Regex.Search.Rounds.{IsClean, Leftmost, search_lem}

-- What `regexec` must report about a program on a text: the leftmost position at which the
-- program accepts, and in `pmatch` what the saves on an accepting way from there leave, slot 0
-- being the position at first.
abbrev pub Reports :
    List Inst → List ℕ → Regex → ℕ → Flags → Option (List Match) → Returned → Type 0
Reports program text preg nmatch flags pmatch r =
    ((new : Option (List Match)) × (start : ℕ) × (captures : List (Option ℕ)) × (r ≡ returns 0 new)
      × (start ≤ length text)
      × Accepts program text flags 0 start
      × Records program text flags 0 start (some start ∷ replicate (2 * preg.re_nsub + 1) none)
          captures
      × Written preg nmatch captures pmatch new
      × ((s : ℕ) → s < start → ¬ Accepts program text flags 0 s))
    ⊎ ((r ≡ returns reg_nomatch pmatch)
        × ((s : ℕ) → s ≤ length text → ¬ Accepts program text flags 0 s))

fresh_captures_lem :
    (program : List Inst) (text : List ℕ) (flags : Flags) (groups start : ℕ)
    → fresh_captures program text flags ((groups + 1) * 2) start
      ≡ some start ∷ replicate (2 * groups + 1) none
fresh_captures_lem program text flags groups start =
    ap (λ (n : ℕ). set (replicate n none) 0 (some start)) {y = suc (2 * groups + 1)} (omega arith)

written_lem :
    (program : List Inst) (text : List ℕ) (preg : Regex) (nmatch : ℕ) (flags : Flags)
    (given : List Match) (c : List (Option ℕ)) (start : ℕ)
    → start ≤ length text
    → Accepts program text flags 0 start
    → Records program text flags 0 start (some start ∷ replicate (2 * preg.re_nsub + 1) none) c
    → ((s : ℕ) → s < start → ¬ Accepts program text flags 0 s)
    → Reports program text preg nmatch flags
        (some given)
        (report preg nmatch (some given) (SearchResult.found c))
unfolding report
written_lem program text preg nmatch flags given c start inside acc saved before =
    elim (Bool-cases preg.re_cflags.nosub) [
      | inl quiet ↦
          inl
            (some given, start, c, rw quiet refl, inside, acc, saved, (λ e. refl, λ e. cc), before)
      | inr loud ↦ inl (
        some (
            copy_matches (if ltb (preg.re_nsub + 1) nmatch then preg.re_nsub + 1 else nmatch) 0 c
              given),
        start,
        c,
        rw loud refl,
        inside,
        acc,
        saved,
        (λ e. cc, λ e. copied_lem c preg.re_nsub nmatch given),
        before,
      )
    ]

reported :
    (program : List Inst) (text : List ℕ) (preg : Regex) (nmatch : ℕ) (pmatch : Option (List Match))
    (flags : Flags) (r : SearchResult)
    → Leftmost program text flags ((preg.re_nsub + 1) * 2) 0 r
    → Reports program text preg nmatch flags pmatch (report preg nmatch pmatch r)
unfolding report
reported program text preg nmatch pmatch flags SearchResult.not_found h =
    inr (refl, λ s to. h s (omega arith) to)
reported program text preg nmatch none flags (SearchResult.found c)
      (s, from, to, acc, saved, before) =
    inl (
      none,
      s,
      c,
      refl,
      to,
      acc,
      rw (← fresh_captures_lem program text flags preg.re_nsub s) saved,
      refl,
      λ s' below. before s' (omega arith) below,
    )
reported program text preg nmatch (some given) flags (SearchResult.found c)
      (s, from, to, acc, saved, before) =
    written_lem program text preg nmatch flags given c s to acc
      (rw (← fresh_captures_lem program text flags preg.re_nsub s) saved)
      (λ s' below. before s' (omega arith) below)
reported program text preg nmatch pmatch flags SearchResult.fault h = absurd h
reported program text preg nmatch pmatch flags SearchResult.out_of_fuel h = absurd h

-- Let the compiled program have an `RE_MATCH`, let its `RE_SAVE`s stay inside the captures, let
-- both blocks be allocated, and let no entry of the block for the marks hold by chance a number
-- from 1 to the length of the text plus 1. Then `regexec` ends without a stray access; it returns
-- 0 exactly when the automaton accepts from some position, and it returns REG_NOMATCH and leaves
-- `pmatch` alone otherwise. When it returns 0 there is an accepting way from the leftmost such
-- position, and unless REG_NOSUB is set, entry `k` of `pmatch`, below `nmatch` and up to the
-- number of groups, has the captures 2k and 2k+1 that the saves on this way leave, where capture
-- 0 is the position before them; the other entries are as before, and all of them with REG_NOSUB.
pub regexec_lem :
    (preg : Regex) (all program : List Inst) (text : List ℕ) (nmatch : ℕ)
    (pmatch : Option (List Match)) (eflags : ExecFlags) (marks : List ℕ)
    → preg.re_program ≡ some all
    → upto_match all ≡ some program
    → length text + 1 < 2 ^ 32
    → SavesWithin program ((preg.re_nsub + 1) * 2)
    → length marks ≡ length program * (length text + 1)
    → IsClean 0 (length text + 1) marks
    → Reports program text preg nmatch
        (both_flags preg.re_cflags eflags)
        pmatch
        (regexec preg text nmatch pmatch eflags true (some marks))
unfolding regexec
regexec_lem preg all program text nmatch pmatch eflags marks compiled ends small saves size clean =
    rw (compiled, ends, regexec)
      (reported program text preg nmatch pmatch (both_flags preg.re_cflags eflags) _ (
        search_lem program text (both_flags preg.re_cflags eflags) ((preg.re_nsub + 1) * 2)
          (length text + 1) 0 marks (omega arith) small size saves clean))
