-- ===== src/Regex/Compile/Parse.antt =====
-- lib/libc_regex.c, `re_parse_interval` and the tests for the end of a sequence.
use lamp_userspace.Prelude.{
  ℕ, ◌+◌, ◌-◌, ◌*◌, Bool, false, not, ◌&&◌, List, [], ◌∷◌, ltb, ◌==◌, if◌then◌else◌, get_or, drop,
  Option, none, some,
}
use lamp_userspace.Ctype.{isdigit}
use lamp_userspace.Regex.Compile.{Compiler, M, ◌>>◌, pure, fail_with, move_to}

abbrev pub reg_badbr : ℕ
reg_badbr = 10

-- The loop over the digits of a bound; `none` when the value passes 10000.
read_bound : ℕ → List ℕ → Option (ℕ × List ℕ)
unfolding isdigit
read_bound value [] = some (value, [])
read_bound value (c ∷ p) =
    let v = value * 10 + (c - b'0') in
    let rest = read_bound v p in
    if isdigit c then (if ltb 10000 v then none else rest) else some (value, c ∷ p)

-- `min` and `max`, with `none` for the -1 of an open interval.
abbrev pub Interval : Type 0
Interval = ℕ × Option ℕ

close_interval : Interval → List ℕ → M Interval
close_interval bounds p c =
    if get_or p 0 0 == b'}' then (do move_to (drop 1 p); pure bounds) c else fail_with reg_badbr c

unfoldable pub re_parse_interval : M Interval
unfolding read_bound close_interval isdigit
re_parse_interval c = elim (read_bound 0 c.cursor) [
  | none ↦ fail_with reg_badbr c
  | some (min, p) ↦
      if get_or p 0 0 == b','
      then (if isdigit (get_or p 1 0)
          then elim (read_bound 0 (drop 1 p)) [
            | none ↦ fail_with reg_badbr c
            | some (max, q) ↦ close_interval (min, some max) q c
          ]
          else close_interval (min, none) (drop 1 p) c)
      else close_interval (min, some min) p c
]

unfoldable pub re_is_alt_delimiter : Compiler → Bool
re_is_alt_delimiter c =
    if c.cflags.extended
    then get_or c.cursor 0 0 == b'|'
    else get_or c.cursor 0 0 == b'\\' && get_or c.cursor 1 0 == b'|'

unfoldable pub re_is_group_close : Compiler → Bool → Bool
re_is_group_close c in_group =
    if not in_group
    then false
    else if c.cflags.extended
    then get_or c.cursor 0 0 == b')'
    else get_or c.cursor 0 0 == b'\\' && get_or c.cursor 1 0 == b')'
