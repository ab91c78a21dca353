-- ===== src/Regex/Exec/Moves.antt =====
-- Which moves each instruction of `re_run` has.
use lamp_userspace.Prelude.{ℕ, ◌+◌, ◌≡◌, ◌⊎◌, inl, inr, Bool, List, true, false, arith}
use lamp_userspace.Regex.{Op, Inst, Flags}
use lamp_userspace.Regex.Exec.{consumes, holds}
use lamp_userspace.Regex.Nfa.{Edge, consume, test, first, second, jump, record_offset}

abbrev pub is_consuming : Op → Bool
is_consuming Op.char = true
is_consuming Op.any = true
is_consuming Op.class = true
is_consuming _ = false

abbrev pub is_test : Op → Bool
is_test Op.bol = true
is_test Op.eol = true
is_test Op.wordb = true
is_test Op.not_wordb = true
is_test _ = false

module _ (text : List ℕ) (flags : Flags) where
  consumes_op : (i : Inst) (pos : ℕ) → consumes text flags i pos ≡ true → is_consuming i.op ≡ true
  unfolding consumes
  consumes_op i pos h = ground arith

  holds_op : (i : Inst) (pos : ℕ) → holds text flags i pos ≡ true → is_test i.op ≡ true
  unfolding holds
  holds_op i pos h = ground arith

  module _ (i : Inst) (pc pos : ℕ) where
    pub consuming_only :
        is_consuming i.op ≡ true
        → (q p : ℕ) → Edge text flags i pc pos q p
        → (consumes text flags i pos ≡ true) × (q ≡ pc + 1) × (p ≡ pos + 1)
    consuming_only o q p (consume c a b) = (c, a, b)
    consuming_only o q p (test c a b) = absurd (ground (arith, holds_op i pos c))
    consuming_only o q p (first c a b) = absurd (ground arith)
    consuming_only o q p (second c a b) = absurd (ground arith)
    consuming_only o q p (jump c a b) = absurd (ground arith)
    consuming_only o q p (record_offset c a b) = absurd (ground arith)

    pub test_only :
        is_test i.op ≡ true
        → (q p : ℕ) → Edge text flags i pc pos q p
        → (holds text flags i pos ≡ true) × (q ≡ pc + 1) × (p ≡ pos)
    test_only o q p (consume c a b) = absurd (ground (arith, consumes_op i pos c))
    test_only o q p (test c a b) = (c, a, b)
    test_only o q p (first c a b) = absurd (ground arith)
    test_only o q p (second c a b) = absurd (ground arith)
    test_only o q p (jump c a b) = absurd (ground arith)
    test_only o q p (record_offset c a b) = absurd (ground arith)

    pub split_only :
        i.op ≡ Op.split
        → (q p : ℕ) → Edge text flags i pc pos q p
        → ((q ≡ i.x) × (p ≡ pos)) ⊎ ((q ≡ i.y) × (p ≡ pos))
    split_only o q p (consume c a b) = absurd (ground (arith, consumes_op i pos c))
    split_only o q p (test c a b) = absurd (ground (arith, holds_op i pos c))
    split_only o q p (first c a b) = inl (a, b)
    split_only o q p (second c a b) = inr (a, b)
    split_only o q p (jump c a b) = absurd (ground arith)
    split_only o q p (record_offset c a b) = absurd (ground arith)

    pub jump_only : i.op ≡ Op.jmp → (q p : ℕ) → Edge text flags i pc pos q p → (q ≡ i.x) × (p ≡ pos)
    jump_only o q p (consume c a b) = absurd (ground (arith, consumes_op i pos c))
    jump_only o q p (test c a b) = absurd (ground (arith, holds_op i pos c))
    jump_only o q p (first c a b) = absurd (ground arith)
    jump_only o q p (second c a b) = absurd (ground arith)
    jump_only o q p (jump c a b) = (a, b)
    jump_only o q p (record_offset c a b) = absurd (ground arith)

    pub save_only :
        i.op ≡ Op.save → (q p : ℕ) → Edge text flags i pc pos q p → (q ≡ pc + 1) × (p ≡ pos)
    save_only o q p (consume c a b) = absurd (ground (arith, consumes_op i pos c))
    save_only o q p (test c a b) = absurd (ground (arith, holds_op i pos c))
    save_only o q p (first c a b) = absurd (ground arith)
    save_only o q p (second c a b) = absurd (ground arith)
    save_only o q p (jump c a b) = absurd (ground arith)
    save_only o q p (record_offset c a b) = (a, b)
