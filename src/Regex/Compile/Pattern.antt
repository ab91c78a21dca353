-- ===== src/Regex/Compile/Pattern.antt =====
-- lib/libc_regex.c, the recursive descent over a pattern, and `regcomp`. Each function takes fuel,
-- and passes less to those that it calls; `regcomp` starts with more than the pattern can use.
use lamp_userspace.Prelude.{
  ℕ, zero, suc, ◌+◌, ◌*◌, Bool, true, not, ◌&&◌, ◌||◌, List, [], ◌∷◌, leb, ◌==◌, if◌then◌else◌,
  get_or, drop, length, none, some,
}
use lamp_userspace.Regex.{Op}
use lamp_userspace.Regex.Compile.{
  Compiler, Step, M, ◌>>=◌, ◌>>◌, pure, get, fail_with, return_minus_one, move_to, modify, put_x,
  put_y, ignore, re_emit, re_insert,
}
use lamp_userspace.Regex.Compile.Class.{
  re_parse_escape, re_compile_class, re_compile_simple_class, reg_eescape,
}
use lamp_userspace.Regex.Compile.Parse.{re_is_alt_delimiter, re_is_group_close}
use lamp_userspace.Regex.Compile.Quantifier.{re_compile_quantifier}

abbrev pub reg_badpat : ℕ
reg_badpat = 2

abbrev pub reg_eparen : ℕ
reg_eparen = 8

module _ (grow : ℕ → Bool) where
  unfoldable pub emit_save : ℕ → M (Unit {0})
  unfolding re_emit
  emit_save slot = do save ← re_emit grow Op.save; put_x save slot

  -- The branch of an open parenthesis: `width` is the length of the closing one.
  group : M (Unit {0}) → Bool → List ℕ → ℕ → (Compiler → Bool) → M ℕ
  unfolding emit_save
  group body capture inside width closes c =
      let opened = record c {
        cursor = inside;
        groups = if capture then c.groups + 1 else c.groups;
      } in
      (do
        (if capture then emit_save ((c.groups + 1) * 2) else pure tt)
        body
        c' ← get
        (if not (c'.error == 0)
            then return_minus_one
            else if not (closes c')
            then fail_with reg_eparen
            else (do
              move_to (drop width c'.cursor)
              (if capture then emit_save (c'.groups * 2 + 1) else pure tt)
              pure 1)))
        opened

  -- The end of `re_compile_atom`: an escape or an ordinary character.
  literal : M ℕ
  unfolding re_parse_escape re_emit
  literal c = elim (re_parse_escape c.cursor) [
    | none ↦ fail_with reg_eescape c
    | some (ch, rest) ↦
        (do
          move_to rest
          index ← re_emit grow Op.char
          modify index (λ i. record i { ch = ch })
          pure 1)
          c
  ]

  abbrev is_class_escape : ℕ → Bool
  is_class_escape k = k == b'w' || k == b'W' || k == b's' || k == b'S' || k == b'd' || k == b'D'

  -- The upper-case letters go to the `switch` as they stand.
  abbrev class_escape : ℕ → M ℕ
  class_escape k = do re_compile_simple_class grow k (leb b'A' k && leb k b'Z'); pure 1

  re_compile_atom : M (Unit {0}) → Bool → M ℕ
  unfolding re_is_alt_delimiter re_is_group_close re_emit re_compile_class group literal
      re_compile_simple_class
  re_compile_atom alternation in_group c =
      let p = c.cursor in
      let p0 = get_or p 0 0 in
      let p1 = get_or p 1 0 in
      let ext = c.cflags.extended in
      let plain_group = ext && get_or p 1 0 == b'?' && get_or p 2 0 == b':' in
      if p0 == 0 || re_is_alt_delimiter c || re_is_group_close c in_group
      then Step.ok 0 c
      else if p0 == b'^'
      then (do move_to (drop 1 p); re_emit grow Op.bol) c
      else if p0 == b'$'
      then (do move_to (drop 1 p); re_emit grow Op.eol) c
      else if p0 == b'.'
      then (do move_to (drop 1 p); re_emit grow Op.any) c
      else if p0 == b'['
      then re_compile_class grow c
      else if p0 == b'(' && ext
      then group alternation (not plain_group) (if plain_group then drop 3 p else drop 1 p) 1
          (λ c'. get_or c'.cursor 0 0 == b')') c
      else if p0 == b'\\' && p1 == b'(' && not ext
      then group alternation true (drop 2 p) 2
          (λ c'. get_or c'.cursor 0 0 == b'\\' && get_or c'.cursor 1 0 == b')') c
      else if p0 == b'\\' && is_class_escape p1
      then (do move_to (drop 2 p); class_escape p1) c
      else if p0 == b'\\' && p1 == b'b'
      then (do move_to (drop 2 p); re_emit grow Op.wordb) c
      else if p0 == b'\\' && p1 == b'B'
      then (do move_to (drop 2 p); re_emit grow Op.not_wordb) c
      else literal c

  -- `c->program[jumps[i]].x = end` for the jumps at the ends of the alternatives.
  land : List ℕ → ℕ → M (Unit {0})
  land [] end = pure tt
  land (jump ∷ jumps) end = do put_x jump end; land jumps end

  -- The end of `re_compile_alternation`, and the room for 128 jumps.
  finish_alternation : ℕ → List ℕ → M (Unit {0})
  unfolding land
  finish_alternation last_split jumps c =
      (do put_y last_split (length c.program); land jumps (length c.program)) c

  unfoldable mutual
    unfolding re_compile_atom re_compile_quantifier re_is_alt_delimiter re_is_group_close re_insert
        re_emit finish_alternation

    pub re_compile_sequence : ℕ → Bool → M (Unit {0})
    re_compile_sequence zero in_group c = Step.no_fuel
    re_compile_sequence (suc fuel) in_group c =
        let round =
          ignore
            (do
              atom ← re_compile_atom (re_compile_alternation fuel true) in_group
              (if atom == 0 then pure tt else (do
                _ ← re_compile_quantifier grow (length c.program)
                re_compile_sequence fuel in_group)))
            c in
        if not (c.error == 0)
          || get_or c.cursor 0 0 == 0
          || re_is_alt_delimiter c
          || re_is_group_close c in_group
        then Step.ok tt c
        else round

    pub re_compile_alternation : ℕ → Bool → M (Unit {0})
    re_compile_alternation zero in_group c = Step.no_fuel
    re_compile_alternation (suc fuel) in_group c =
        ignore
          (do
            re_compile_sequence fuel in_group
            c' ← get
            (if not (c'.error == 0) || not (re_is_alt_delimiter c') then pure tt else (do
              first_split ← re_insert grow (length c.program)
              c'' ← get
              modify first_split (λ i. record i {
                op = Op.split;
                x = length c.program + 1;
                y = length c''.program;
              })
              jump ← re_emit grow Op.jmp
              alternatives fuel in_group first_split (jump ∷ []))))
          c

    -- The loop of `re_compile_alternation`. `jumps` are the jumps so far, the last one first.
    pub alternatives : ℕ → Bool → ℕ → List ℕ → M (Unit {0})
    alternatives zero in_group last_split jumps c = Step.no_fuel
    alternatives (suc fuel) in_group last_split jumps c =
        let round =
          (do
            move_to (drop (if c.cflags.extended then 1 else 2) c.cursor)
            split ← re_emit grow Op.split
            put_y last_split split
            re_compile_sequence fuel in_group
            c' ← get
            (if not (c'.error == 0) then pure tt else (do
              put_x split (split + 1)
              put_y split (length c'.program)
              jump ← re_emit grow Op.jmp
              (if leb 128 (length jumps)
                  then fail_with reg_badpat
                  else alternatives fuel in_group split (jump ∷ jumps)))))
            c in
        if re_is_alt_delimiter c then round else finish_alternation last_split jumps c
