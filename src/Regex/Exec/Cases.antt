-- ===== src/Regex/Exec/Cases.antt =====
-- What each case of the `switch` of `re_run` shows, from what the recursive calls show.
use lamp_userspace.Prelude.{
  ℕ, ◌+◌, ◌*◌, ◌≤◌, ◌<◌, ◌≡◌, inl, inr, refl, true, false, List, Bool, if◌then◌else◌, get_elem?,
  set, length, Option, some, arith, length-set, get_elem?-lt, set_back, ap, ◌∙◌,
}
use lamp_userspace.Regex.{Op, Inst, Flags}
use lamp_userspace.Regex.Exec.{
  Memory, Outcome, matched, failed, fault, out_of_fuel, consumes, holds, or_else, dispatch,
}
use lamp_userspace.Regex.Nfa.{consume, test, first, jump, record_offset, stored_by}
use lamp_userspace.Regex.Exec.Marks.{unmarked, Edge-inside}
use lamp_userspace.Regex.Exec.Moves.{
  is_consuming, is_test, consuming_only, test_only, jump_only, save_only,
}
use lamp_userspace.Regex.Exec.Shows.{SavesWithin, Shows, ShowsInst, by_move, stuck, after_first}

-- A memory on which a call can neither fault nor run out of fuel.
pub record Ready (program : List Inst) (text : List ℕ) (g fuel : ℕ) (m : Memory) : Type 0 where
  pub marks : length m.generations ≡ length program * (length text + 1)
  pub few : unmarked g m.generations < fuel
  pub saves : SavesWithin program (length m.captures)

-- What the recursive calls may be used for.
abbrev pub Shown :
    (program : List Inst) (text : List ℕ) (flags : Flags) (g fuel : ℕ)
    → (ℕ → ℕ → Memory → Outcome)
    → Type 0
Shown program text flags g fuel next =
    (q p : ℕ) (m : Memory)
    → p ≤ length text
    → Ready program text g fuel m
    → Shows program text flags g q p m (next q p m)

module _ (x pos : ℕ) (c : List (Option ℕ)) where
  consuming_keeps : (o : Op) → is_consuming o ≡ true → stored_by o x pos c ≡ c
  consuming_keeps Op.char h = refl
  consuming_keeps Op.any h = refl
  consuming_keeps Op.class h = refl
  consuming_keeps Op.split h = refl
  consuming_keeps Op.jmp h = refl
  consuming_keeps Op.save h = cc
  consuming_keeps Op.bol h = refl
  consuming_keeps Op.eol h = refl
  consuming_keeps Op.wordb h = refl
  consuming_keeps Op.not_wordb h = refl
  consuming_keeps Op.match h = refl

  test_keeps : (o : Op) → is_test o ≡ true → stored_by o x pos c ≡ c
  test_keeps Op.char h = refl
  test_keeps Op.any h = refl
  test_keeps Op.class h = refl
  test_keeps Op.split h = refl
  test_keeps Op.jmp h = refl
  test_keeps Op.save h = cc
  test_keeps Op.bol h = refl
  test_keeps Op.eol h = refl
  test_keeps Op.wordb h = refl
  test_keeps Op.not_wordb h = refl
  test_keeps Op.match h = refl

module _ (program : List Inst) (text : List ℕ) (flags : Flags) (g fuel : ℕ) where
  module _ (next : ℕ → ℕ → Memory → Outcome) (shown : Shown program text flags g fuel next) where
    module _ (i : Inst) (pc pos : ℕ) (m : Memory) where
      advance_lem :
          get_elem? program pc ≡ some i
          → pos ≤ length text
          → Ready program text g fuel m
          → is_consuming i.op ≡ true
          → (b : Bool) → consumes text flags i pos ≡ b
          → ShowsInst program text flags g i pc pos m
              (if b then next (pc + 1) (pos + 1) m else failed m)
      advance_lem at inside ready op true go =
          by_move program text flags g i pc pos (pc + 1) (pos + 1) m (λ e. ground arith)
            (consuming_keeps i.x pos m.captures i.op op) (consume go refl refl)
            (λ q p e. let (_, a, b) = consuming_only text flags i pc pos op q p e in (a, b)) _
            (shown (pc + 1) (pos + 1) m
              (Edge-inside program text flags g i {pc = pc} {pos = pos} (consume go refl refl)
                inside)
              ready)
      advance_lem at inside ready op false no_move =
          stuck program text flags g i pc pos m (λ e. ground arith)
            (λ q p e. cc ((consuming_only text flags i pc pos op q p e).0))

      check_lem :
          get_elem? program pc ≡ some i
          → pos ≤ length text
          → Ready program text g fuel m
          → is_test i.op ≡ true
          → (b : Bool) → holds text flags i pos ≡ b
          → ShowsInst program text flags g i pc pos m (if b then next (pc + 1) pos m else failed m)
      check_lem at inside ready op true go =
          by_move program text flags g i pc pos (pc + 1) pos m (λ e. ground arith)
            (test_keeps i.x pos m.captures i.op op) (test go refl refl)
            (λ q p e. let (_, a, b) = test_only text flags i pc pos op q p e in (a, b)) _
            (shown (pc + 1) pos m inside ready)
      check_lem at inside ready op false no_move =
          stuck program text flags g i pc pos m (λ e. ground arith)
            (λ q p e. cc ((test_only text flags i pc pos op q p e).0))

      -- The second arm, by how the first one ended.
      split_lem :
          pos ≤ length text
          → Ready program text g fuel m
          → i.op ≡ Op.split
          → (r : Outcome) → Shows program text flags g i.x pos m r
          → ShowsInst program text flags g i pc pos m (or_else r (λ m'. next i.y pos m'))
      unfolding or_else
      split_lem inside ready op (matched m') (acc, len, saved) =
          (inr (i.x, pos, first op refl refl, acc, rw op saved), len)
      split_lem inside ready op (failed m') (ext, seen, kept) =
          after_first program text flags g i pc pos m m' op (ext, seen, kept) _
            (shown i.y pos m' inside (record {
              marks = ext.size ∙ ready.marks;
              few = omega (arith, ext.fewer, ready.few);
              saves = λ k j at e. rw kept (ready.saves k j at e);
            }))
      split_lem inside ready op fault h = h
      split_lem inside ready op out_of_fuel h = h

      -- The captures come back as they were when what follows a `RE_SAVE` fails.
      save_lem :
          i.op ≡ Op.save
          → (old : Option ℕ) → get_elem? m.captures i.x ≡ some old
          → (r : Outcome)
          → Shows program text flags g
              (pc + 1)
              pos
              (record m { captures = set m.captures i.x (some pos) })
              r
          → ShowsInst program text flags g i pc pos m
              (or_else r (λ m'. failed (record m' { captures = set m'.captures i.x old })))
      unfolding or_else
      save_lem op old at (matched m') (acc, len, saved) = (
        inr (pc + 1, pos, record_offset op refl refl, acc, rw op saved),
        len ∙ length-set m.captures i.x (some pos),
      )
      save_lem op old at (failed m') (ext, seen, kept) = (
        ext,
        λ e. cc,
        λ q p e. let (eq, ep) = save_only text flags i pc pos op q p e in rw (eq, ep) seen,
        ap (λ c. set c i.x old) kept ∙ set_back m.captures i.x (some pos) old at,
      )
      save_lem op old at fault h = h
      save_lem op old at out_of_fuel h = h

      pub dispatch_lem :
          get_elem? program pc ≡ some i
          → pos ≤ length text
          → Ready program text g fuel m
          → (o : Op) → i.op ≡ o
          → ShowsInst program text flags g i pc pos m (dispatch text flags next i pc pos m o)
      unfolding dispatch
      dispatch_lem at inside ready Op.char op =
          advance_lem at inside ready (ap is_consuming op) _ refl
      dispatch_lem at inside ready Op.any op =
          advance_lem at inside ready (ap is_consuming op) _ refl
      dispatch_lem at inside ready Op.class op =
          advance_lem at inside ready (ap is_consuming op) _ refl
      dispatch_lem at inside ready Op.split op =
          split_lem inside ready op _ (shown i.x pos m inside ready)
      dispatch_lem at inside ready Op.jmp op =
          by_move program text flags g i pc pos i.x pos m (λ e. cc) (rw op refl) (jump op refl refl)
            (jump_only text flags i pc pos op) _ (shown i.x pos m inside ready)
      dispatch_lem at inside ready Op.save op =
          let (old, slot) = get_elem?-lt m.captures i.x (ready.saves pc i at op) in
          rw slot (
            save_lem op old slot _ (
              shown (pc + 1) pos _ inside (record {
                marks = ready.marks;
                few = ready.few;
                saves = λ k j at' e. rw length-set (ready.saves k j at' e);
              })))
      dispatch_lem at inside ready Op.bol op = check_lem at inside ready (ap is_test op) _ refl
      dispatch_lem at inside ready Op.eol op = check_lem at inside ready (ap is_test op) _ refl
      dispatch_lem at inside ready Op.wordb op = check_lem at inside ready (ap is_test op) _ refl
      dispatch_lem at inside ready Op.not_wordb op =
          check_lem at inside ready (ap is_test op) _ refl
      dispatch_lem at inside ready Op.match op = (inl (op, refl), refl)
