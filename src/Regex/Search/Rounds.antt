-- ===== src/Regex/Search/Rounds.antt =====
-- The loop of `regexec` over the start positions finds the first one that the program accepts.
use lamp_userspace.Prelude.{
  ℕ, zero, suc, ◌+◌, ◌^◌, ◌≤◌, ◌<◌, ◌≡◌, ◌⊎◌, inl, inr, List, get_elem?, length, replicate, none,
  some, ==-false, arith, length-set, length-replicate, u32, sym, ◌∙◌,
}
use lamp_userspace.Regex.{Inst, Flags}
use lamp_userspace.Regex.Exec.{Memory, Outcome, matched, failed, run}
use lamp_userspace.Regex.Nfa.{Accepts, Records}
use lamp_userspace.Regex.Exec.Marks.{not-Accepts, unmarked-le}
use lamp_userspace.Regex.Exec.Shows.{SavesWithin, Shows}
use lamp_userspace.Regex.Exec.Cases.{Ready}
use lamp_userspace.Regex.Exec.Run.{run_lem}
use lamp_userspace.Regex.Search.{SearchResult, states, fresh_captures, after_round, search}
use native.Mathlib.Decide.{dec_lt}

-- No entry holds a generation that is still to come: the generations are at most `last`.
abbrev pub IsClean : ℕ → ℕ → List ℕ → Type 0
IsClean g last marks = (k v : ℕ) → get_elem? marks k ≡ some v → (v ≤ g) ⊎ (last < v)

module _ (program : List Inst) (text : List ℕ) (flags : Flags) (slots : ℕ) where
  -- What a search from `start` on must return.
  abbrev pub Leftmost : ℕ → SearchResult → Type 0
  Leftmost start (SearchResult.found captures) =
      (s : ℕ) × (start ≤ s)
      × (s ≤ length text)
      × Accepts program text flags 0 s
      × Records program text flags 0 s (fresh_captures program text flags slots s) captures
      × ((s' : ℕ) → start ≤ s' → s' < s → ¬ Accepts program text flags 0 s')
  Leftmost start SearchResult.not_found =
      (s : ℕ) → start ≤ s → s ≤ length text → ¬ Accepts program text flags 0 s
  Leftmost start SearchResult.fault = ⊥
  Leftmost start SearchResult.out_of_fuel = ⊥

  -- A failed round shows that nothing starts there.
  failed_round :
      (g start : ℕ) (m m' : Memory)
      → start ≤ length text
      → IsClean g (length text + 1) m.generations
      → g < length text + 1
      → Shows program text flags (g + 1) 0 start m (failed m')
      → (¬ Accepts program text flags 0 start) × IsClean (g + 1) (length text + 1) m'.generations
  failed_round g start m m' inside clean few (ext, seen, kept) = (
    λ acc.
        not-Accepts program text flags (g + 1) m'.generations
          (λ pc pos p mark. elim (ext.closed pc pos p mark) [
            | inr done ↦ done
            | inl before ↦
                absurd (elim (clean _ _ before) [ inl low ↦ omega arith | inr high ↦ omega arith ])
          ])
          inside acc seen,
    λ k v at. elim (ext.old k) [
      | inl same ↦ elim (clean k v (sym same ∙ at)) [
        | inl low ↦ inl (omega arith)
        | inr high ↦ inr high
      ]
      | inr new ↦ inl (let e : v ≡ g + 1 = cc in omega arith)
    ],
  )

  search-suc :
      (left start g : ℕ) (marks : List ℕ)
      → g + 1 < 2 ^ 32
      → search program text flags slots (suc left) start g marks
        ≡ after_round
            (run program text flags (states program text flags slots + 1) (g + 1) 0 start (record {
              captures = fresh_captures program text flags slots start;
              generations = marks;
            }))
            (λ marks'. search program text flags slots left (start + 1) (g + 1) marks')
  unfolding search
  search-suc left start g marks h =
      let fits : u32 (g + 1) ≡ g + 1 = omega arith in rw (fits, ==-false (g + 1) 0 (omega arith))

  -- A position that is no start is passed over.
  Leftmost-from :
      (start : ℕ) (r : SearchResult)
      → ¬ Accepts program text flags 0 start
      → Leftmost (start + 1) r
      → Leftmost start r
  Leftmost-from start (SearchResult.found c) not_here (s, from, to, acc, saved, before) = (
    s,
    omega arith,
    to,
    acc,
    saved,
    λ s' a b. elim (dec_lt start s') [
      | yes later ↦ before s' (omega arith) b
      | no here ↦ let e : s' ≡ start = omega arith in rw e not_here
    ],
  )
  Leftmost-from start SearchResult.not_found not_here rest = λ s a b. elim (dec_lt start s) [
    | yes later ↦ rest s (omega arith) b
    | no here ↦ let e : s ≡ start = omega arith in rw e not_here
  ]
  Leftmost-from start SearchResult.fault not_here h = h
  Leftmost-from start SearchResult.out_of_fuel not_here h = h

  first_memory : ℕ → List ℕ → Memory
  first_memory start marks = record {
    captures = fresh_captures program text flags slots start;
    generations = marks;
  }

  -- The loop rule, at what the rest of the loop is known to do.
  round_lem :
      (start : ℕ) (marks : List ℕ) (rest : List ℕ → SearchResult)
      → start ≤ length text
      → length marks ≡ states program text flags slots
      → IsClean start (length text + 1) marks
      → ((marks' : List ℕ)
          → length marks' ≡ states program text flags slots
          → IsClean (start + 1) (length text + 1) marks'
          → Leftmost (start + 1) (rest marks'))
      → (r : Outcome) → Shows program text flags (start + 1) 0 start (first_memory start marks) r
      → Leftmost start (after_round r rest)
  unfolding after_round first_memory
  round_lem start marks rest inside size clean ih (matched m') (acc, _, saved) =
      (start, omega arith, inside, acc, saved, λ s' a b. absurd (omega arith))
  round_lem start marks rest inside size clean ih (failed m') shown =
      let (none_here, clean') =
        failed_round start start (first_memory start marks) m' inside clean (omega arith) shown in
      Leftmost-from start (rest m'.generations) none_here
        (ih m'.generations (shown.0.size ∙ size) clean')
  round_lem start marks rest inside size clean ih Outcome.fault h = h
  round_lem start marks rest inside size clean ih Outcome.out_of_fuel h = h

  first_memory-Ready :
      (start : ℕ) (marks : List ℕ)
      → length marks ≡ states program text flags slots
      → SavesWithin program slots
      → Ready program text
          (start + 1)
          (states program text flags slots + 1)
          (first_memory start marks)
  unfolding first_memory
  first_memory-Ready start marks size saves =
      let slot_count : length (fresh_captures program text flags slots start) ≡ slots =
        length-set (replicate slots none) 0 (some start) ∙ length-replicate slots none in
      record {
        marks = size;
        few = omega (arith, unmarked-le (start + 1) marks, size);
        saves = λ pc i at op. rw slot_count (saves pc i at op);
      }

  pub search_lem :
      (left start : ℕ) (marks : List ℕ)
      → start + left ≡ length text + 1
      → length text + 1 < 2 ^ 32
      → length marks ≡ states program text flags slots
      → SavesWithin program slots
      → IsClean start (length text + 1) marks
      → Leftmost start (search program text flags slots left start start marks)
  unfolding search first_memory
  search_lem zero start marks all small size saves clean = λ s from to. absurd (omega arith)
  search_lem (suc left) start marks all small size saves clean =
      rw (search-suc left start start marks (omega arith)) (
        round_lem start marks _ (omega arith) size clean
          (λ marks' size' clean'.
            search_lem left (start + 1) marks' (omega arith) small size' saves clean')
          _
          (run_lem program text flags (start + 1) _ 0 start (first_memory start marks) (omega arith)
            (first_memory-Ready start marks size saves)))
