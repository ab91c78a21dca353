-- ===== src/Regex/Exec/Shows.antt =====
-- What a call of `re_run` shows when it ends, and how the cases of its `switch` show it.
use lamp_userspace.Prelude.{
  ℕ, ◌<◌, ◌≡◌, ◌≢◌, ◌⊎◌, inl, inr, refl, List, get_elem?, length, some, ap, ◌∙◌,
}
use lamp_userspace.Regex.{Op, Inst, Flags}
use lamp_userspace.Regex.Exec.{Memory, Outcome, matched, failed, fault, out_of_fuel}
use lamp_userspace.Regex.Nfa.{Edge, second, Accepts, stored_by, Records}
use lamp_userspace.Regex.Exec.Marks.{Visited, Extends, Extends-refl, Extends-trans, Visited-later}
use lamp_userspace.Regex.Exec.Moves.{split_only}

-- Every `RE_SAVE` names one of `slots` captures.
abbrev pub SavesWithin : List Inst → ℕ → Type 0
SavesWithin program slots =
    (pc : ℕ) (i : Inst) → get_elem? program pc ≡ some i → i.op ≡ Op.save → i.x < slots

module _ (program : List Inst) (text : List ℕ) (flags : Flags) (g : ℕ) where
  -- What a call from `pc` and `pos` at the memory `m` has shown when it ends as `r`.
  abbrev pub Shows : ℕ → ℕ → Memory → Outcome → Type 0
  Shows pc pos m (matched m') =
      Accepts program text flags pc pos
      × (length m'.captures ≡ length m.captures)
      × Records program text flags pc pos m.captures m'.captures
  Shows pc pos m (failed m') =
      Extends program text flags g m.generations m'.generations
      × Visited program text flags g m'.generations pc pos
      × (m'.captures ≡ m.captures)
  Shows pc pos m fault = ⊥
  Shows pc pos m out_of_fuel = ⊥

  -- The same of the `switch`, where the state itself is marked already.
  abbrev pub ShowsInst : Inst → ℕ → ℕ → Memory → Outcome → Type 0
  ShowsInst i pc pos m (matched m') =
      (((i.op ≡ Op.match) × (m'.captures ≡ m.captures))
        ⊎ ((pc' : ℕ) × (pos' : ℕ) × Edge text flags i pc pos pc' pos'
            × Accepts program text flags pc' pos'
            × Records program text flags pc' pos' (stored_by i.op i.x pos m.captures) m'.captures))
      × (length m'.captures ≡ length m.captures)
  ShowsInst i pc pos m (failed m') =
      Extends program text flags g m.generations m'.generations
      × (i.op ≢ Op.match)
      × ((pc' pos' : ℕ)
          → Edge text flags i pc pos pc' pos'
          → Visited program text flags g m'.generations pc' pos')
      × (m'.captures ≡ m.captures)
  ShowsInst i pc pos m fault = ⊥
  ShowsInst i pc pos m out_of_fuel = ⊥

  module _ (i : Inst) (pc pos : ℕ) where
    -- The result of the only move.
    pub by_move :
        (q p : ℕ) (m : Memory)
        → (i.op ≢ Op.match)
        → stored_by i.op i.x pos m.captures ≡ m.captures
        → Edge text flags i pc pos q p
        → ((q' p' : ℕ) → Edge text flags i pc pos q' p' → (q' ≡ q) × (p' ≡ p))
        → (r : Outcome) → Shows q p m r
        → ShowsInst i pc pos m r
    by_move q p m plain same go only (matched m') (acc, len, saved) =
        (inr (q, p, go, acc, rw same saved), len)
    by_move q p m plain same go only (failed m') (ext, seen, kept) =
        (ext, plain, λ q' p' e. let (eq, ep) = only q' p' e in rw (eq, ep) seen, kept)
    by_move q p m plain same go only fault h = h
    by_move q p m plain same go only out_of_fuel h = h

    -- No move at all.
    pub stuck :
        (m : Memory)
        → (i.op ≢ Op.match)
        → ((q p : ℕ) → ¬ Edge text flags i pc pos q p)
        → ShowsInst i pc pos m (failed m)
    stuck m plain none_left = (
      Extends-refl program text flags g m.generations,
      plain,
      λ q p e. absurd (none_left q p e),
      refl,
    )

    -- The second arm of `RE_SPLIT`, after the first has failed.
    pub after_first :
        (m m' : Memory)
        → i.op ≡ Op.split
        → Shows i.x pos m (failed m')
        → (r : Outcome) → Shows i.y pos m' r
        → ShowsInst i pc pos m r
    after_first m m' op (ext, seen, kept) (matched m'') (acc, len, saved) =
        (inr (i.y, pos, second op refl refl, acc, rw (op, ← kept) saved), cc (len, ap length kept))
    after_first m m' op (ext, seen, kept) (failed m'') (ext', seen', kept') = (
      Extends-trans program text flags g ext ext',
      λ e. cc,
      λ q p e. elim (split_only text flags i pc pos op q p e) [
        | inl (eq, ep) ↦ rw (eq, ep) (Visited-later program text flags g ext' i.x pos seen)
        | inr (eq, ep) ↦ rw (eq, ep) seen'
      ],
      kept' ∙ kept,
    )
    after_first m m' op h fault h' = h'
    after_first m m' op h out_of_fuel h' = h'
