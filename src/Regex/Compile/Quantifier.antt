-- ===== src/Regex/Compile/Quantifier.antt =====
-- lib/libc_regex.c, `re_compile_quantifier`: what stands behind an atom.
use lamp_userspace.Prelude.{
  ℕ, zero, suc, ◌-◌, Bool, true, not, ◌&&◌, ◌||◌, ltb, ◌==◌, if◌then◌else◌, get_or, drop, length,
  none, some,
}
use lamp_userspace.Regex.{Op}
use lamp_userspace.Regex.Compile.{
  M, ◌>>=◌, ◌>>◌, pure, get, fail_with, move_to, put_x, put_y, re_emit, re_copy_block,
  re_wrap_optional, re_wrap_star,
}
use lamp_userspace.Regex.Compile.Parse.{Interval, re_parse_interval, reg_badbr}

module _ (grow : ℕ → Bool) where
  -- One more copy of the atom behind a `RE_SPLIT` that can skip it.
  optional_copy : ℕ → ℕ → M (Unit {0})
  unfolding re_emit re_copy_block
  optional_copy atom_start atom_end = do
    split ← re_emit grow Op.split
    body ← re_copy_block grow atom_start atom_end
    c ← get
    put_x split body
    put_y split (length c.program)

  optional_copies : ℕ → ℕ → ℕ → M (Unit {0})
  unfolding optional_copy
  optional_copies zero atom_start atom_end = pure tt
  optional_copies (suc left) atom_start atom_end = do
    optional_copy atom_start atom_end
    optional_copies left atom_start atom_end

  copies : ℕ → ℕ → ℕ → M (Unit {0})
  unfolding re_copy_block
  copies zero atom_start atom_end = pure tt
  copies (suc left) atom_start atom_end = do
    _ ← re_copy_block grow atom_start atom_end
    copies left atom_start atom_end

  -- The tail of an interval with no upper bound.
  open_tail : ℕ → ℕ → M (Unit {0})
  unfolding re_emit re_copy_block
  open_tail atom_start atom_end = do
    split ← re_emit grow Op.split
    body ← re_copy_block grow atom_start atom_end
    c ← get
    put_x split body
    put_y split (length c.program)
    jump ← re_emit grow Op.jmp
    put_x jump split

  interval_code : ℕ → ℕ → Interval → M ℕ
  unfolding re_wrap_star re_wrap_optional copies optional_copies open_tail
  interval_code atom_start atom_end (zero, none) = do _ ← re_wrap_star grow atom_start; pure 1
  interval_code atom_start atom_end (zero, some max) = do
    _ ← re_wrap_optional grow atom_start
    optional_copies (max - 1) atom_start atom_end
    pure 1
  interval_code atom_start atom_end (suc min, none) = do
    copies min atom_start atom_end
    open_tail atom_start atom_end
    pure 1
  interval_code atom_start atom_end (suc min, some max) = do
    copies min atom_start atom_end
    optional_copies (max - suc min) atom_start atom_end
    pure 1

  abbrev bounds_ok : Interval → Bool
  bounds_ok (min, none) = true
  bounds_ok (min, some max) = not (ltb max min)

  -- The branch of `+`: the split goes back to the atom.
  plus_code : ℕ → M ℕ
  unfolding re_emit
  plus_code atom_start = do
    split ← re_emit grow Op.split
    c ← get
    put_x split atom_start
    put_y split (length c.program)
    pure 1

  unfoldable pub re_compile_quantifier : ℕ → M ℕ
  unfolding re_wrap_star re_wrap_optional plus_code interval_code re_parse_interval
  re_compile_quantifier atom_start c =
      let ext = c.cflags.extended in
      let p0 = get_or c.cursor 0 0 in
      let p1 = get_or c.cursor 1 0 in
      let past = if ext then drop 1 c.cursor else drop 2 c.cursor in
      let escaped = p0 == b'\\' && not ext in
      if p0 == b'*'
      then (do move_to (drop 1 c.cursor); re_wrap_star grow atom_start) c
      else if p0 == b'+' && ext || escaped && p1 == b'+'
      then (do move_to past; plus_code atom_start) c
      else if p0 == b'?' && ext || escaped && p1 == b'?'
      then (do move_to past; _ ← re_wrap_optional grow atom_start; pure 1) c
      else if p0 == b'{' && ext || escaped && p1 == b'{'
      then (do
        move_to past
        bounds ← re_parse_interval
        c' ← get
        (if bounds_ok bounds
            then interval_code atom_start (length c'.program) bounds
            else fail_with reg_badbr))
          c
      else pure 0 c
