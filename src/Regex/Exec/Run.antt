-- ===== src/Regex/Exec/Run.antt =====
-- `re_run` decides whether its program accepts, and leaves marks that justify a failure.
use lamp_userspace.Prelude.{
  ℕ, zero, suc, ◌≤◌, ◌<◌, ◌≡◌, ◌≢◌, inl, inr, refl, false, Bool-cases, List, get_elem?, set, length,
  none, some, Option-cases, ◌==◌, arith, length-set, get_elem?-set_self, get_elem?-lt,
  lt_of_get_elem?, ap, sym, ◌∙◌, ==_iff, get_elem?-set_cases,
}
use lamp_userspace.Regex.{Op, Inst, Flags}
use lamp_userspace.Regex.Exec.{
  Memory, Outcome, matched, failed, fault, out_of_fuel, state_of, dispatch, run,
}
use lamp_userspace.Regex.Nfa.{Edge, Accepts, Records}
use lamp_userspace.Regex.Exec.Marks.{
  Visited, Expanded, Extends-refl, Marked-later, unmarked-set, state_of-injective,
}
use lamp_userspace.Regex.Exec.Shows.{Shows, ShowsInst}
use lamp_userspace.Regex.Exec.Cases.{Ready, Shown, dispatch_lem}

module _ (program : List Inst) (text : List ℕ) (flags : Flags) (g : ℕ) where
  -- From the memory in which the state is marked back to the one before.
  module _ (i : Inst) (pc pos : ℕ) (m : Memory) (old : ℕ) where
    abbrev marked : List ℕ
    marked = set m.generations (state_of text pc pos) g

    -- The state itself is expanded when the search from its moves is done.
    self-Expanded :
        get_elem? program pc ≡ some i
        → (m' : Memory) → (i.op ≢ Op.match)
        → ((pc' pos' : ℕ)
            → Edge text flags i pc pos pc' pos'
            → Visited program text flags g m'.generations pc' pos')
        → (q p : ℕ) → (pc ≡ q) × (pos ≡ p)
        → Expanded program text flags g m'.generations q p
    self-Expanded at m' plain edges q p (eq, ep) =
        rw (← eq, ← ep) (λ j at'. let same : i ≡ j = cc in rw (← same) (plain, edges))

    after_mark :
        get_elem? program pc ≡ some i
        → pos ≤ length text
        → get_elem? m.generations (state_of text pc pos) ≡ some old
        → old ≢ g
        → (r : Outcome)
        → ShowsInst program text flags g i pc pos (record m { generations = marked }) r
        → Shows program text flags g pc pos m r
    after_mark at inside found other (matched m') (inl (op, same), len) =
        (Accepts.stop at op, len, Records.stop at op same)
    after_mark at inside found other (matched m') (inr (pc', pos', edge, acc, saved), len) =
        (Accepts.move at edge acc, len, Records.move at edge saved)
    after_mark at inside found other (failed m') (ext, plain, edges, kept) = (
      record {
        size = ext.size ∙ length-set m.generations (state_of text pc pos) g;
        old = λ k. elim (ext.old k) [
          | inr new ↦ inr new
          | inl same ↦ elim (get_elem?-set_cases m.generations (state_of text pc pos) k g found) [
            | inl (_, here) ↦ inr (same ∙ here)
            | inr elsewhere ↦ inl (same ∙ elsewhere)
          ]
        ];
        fewer =
            omega
              (arith, ext.fewer, unmarked-set g m.generations (state_of text pc pos) found other);
        closed = λ q p p_in mark. elim (ext.closed q p p_in mark) [
          | inr done ↦ inr done
          | inl before ↦
              elim (get_elem?-set_cases m.generations (state_of text pc pos) (state_of text q p) g
                found) [
                  | inr elsewhere ↦ inl (sym elsewhere ∙ before)
                  | inl (same, _) ↦ inr (
                      self-Expanded at m' plain edges q p
                        (state_of-injective text pc pos q p inside p_in same))
                ]
        ];
      },
      inr (
          Marked-later program text flags g ext pc pos
            (get_elem?-set_self m.generations (state_of text pc pos) g found)),
      kept,
    )
    after_mark at inside found other fault h = h
    after_mark at inside found other out_of_fuel h = h

  run_out :
      (fuel pc pos : ℕ) (m : Memory)
      → get_elem? program pc ≡ none
      → run program text flags (suc fuel) g pc pos m ≡ failed m
  unfolding run
  run_out fuel pc pos m out = rw (out, run)

  run_visited :
      (fuel pc pos : ℕ) (m : Memory) (i : Inst)
      → get_elem? program pc ≡ some i
      → get_elem? m.generations (state_of text pc pos) ≡ some g
      → run program text flags (suc fuel) g pc pos m ≡ failed m
  unfolding run
  run_visited fuel pc pos m i at mark = rw (at, mark, (==_iff g g).1 refl, run)

  run_new :
      (fuel pc pos : ℕ) (m : Memory) (i : Inst) (old : ℕ)
      → get_elem? program pc ≡ some i
      → get_elem? m.generations (state_of text pc pos) ≡ some old
      → (old == g) ≡ false
      → run program text flags (suc fuel) g pc pos m
        ≡ dispatch text flags
            (run program text flags fuel g)
            i
            pc
            pos
            (record m { generations = set m.generations (state_of text pc pos) g })
            i.op
  unfolding run
  run_new fuel pc pos m i old at found new = rw (at, found, new, run)

  -- The induction on the fuel.
  run-Shown : (fuel : ℕ) → Shown program text flags g fuel (run program text flags fuel g)
  run-Shown zero q p m inside ready = absurd (omega (arith, ready.few))
  run-Shown (suc fuel) q p m inside ready = elim (Option-cases (get_elem? program q)) [
    | inl out ↦
        rw (run_out fuel q p m out) (Extends-refl program text flags g m.generations, inl out, refl)
    | inr (i, at) ↦
        let below : q < length program = lt_of_get_elem? program q at in
        let index : state_of text q p < length m.generations = rw ready.marks (grind arith) in
        let (old, found) = get_elem?-lt m.generations (state_of text q p) index in
        elim (Bool-cases (old == g)) [
          | inl visited ↦
              let mark = found ∙ ap some ((==_iff old g).0 visited) in
              rw (run_visited fuel q p m i at mark)
                (Extends-refl program text flags g m.generations, inr mark, refl)
          | inr new ↦ rw (run_new fuel q p m i old at found new) (
              after_mark i q p m old at inside found (λ e. ground arith) _
                (dispatch_lem program text flags g fuel (run program text flags fuel g)
                  (run-Shown fuel) i q p _ at inside
                  (record {
                    marks = length-set m.generations (state_of text q p) g ∙ ready.marks;
                    few = omega (
                      arith,
                      ready.few,
                      unmarked-set g m.generations (state_of text q p) found (λ e. ground arith),
                    );
                    saves = ready.saves;
                  })
                  i.op refl))
        ]
  ]

-- Let the marks cover every state, with fewer unmarked ones than fuel, and let every `RE_SAVE`
-- stay inside the captures. Then `re_run` neither faults nor runs out of fuel. It returns 1 only
-- if the program accepts, and the captures are then those that the saves on one accepting way
-- leave; when it returns 0 the captures are as before, the state is marked unless there is no
-- instruction, and no state that it has marked accepts or has an unmarked successor.
pub run_lem :
    (program : List Inst) (text : List ℕ) (flags : Flags) (g fuel pc pos : ℕ) (m : Memory)
    → pos ≤ length text
    → Ready program text g fuel m
    → Shows program text flags g pc pos m (run program text flags fuel g pc pos m)
run_lem program text flags g fuel pc pos m inside ready =
    run-Shown program text flags g fuel pc pos m inside ready
