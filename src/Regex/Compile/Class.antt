-- ===== src/Regex/Compile/Class.antt =====
-- lib/libc_regex.c, escapes, bracket expressions and the classes `\w`, `\d`, `\s`.
use lamp_userspace.Prelude.{
  ℕ, zero, suc, ◌+◌, ◌-◌, Bool, not, ◌&&◌, ◌||◌, List, [], ◌∷◌, map, ltb, ◌==◌, if◌then◌else◌,
  get_or, drop, length, Option, none, some,
}
use lamp_userspace.Prelude.Text.{codes, after_prefix}
use lamp_userspace.Regex.{Op, set_char, empty_set}
use lamp_userspace.Regex.Compile.{
  Step, M, ◌>>=◌, ◌>>◌, pure, fail_with, move_to, modify, ignore, re_emit,
}

abbrev pub reg_ectype : ℕ
reg_ectype = 4

abbrev pub reg_eescape : ℕ
reg_eescape = 5

abbrev pub reg_ebrack : ℕ
reg_ebrack = 7

abbrev pub reg_erange : ℕ
reg_erange = 11

-- The loop of `re_set_range`, with the count of the characters that are left.
set_range_loop : ℕ → ℕ → List ℕ → List ℕ
unfolding set_char
set_range_loop zero ch s = s
set_range_loop (suc left) ch s = set_range_loop left (ch + 1) (set_char s ch)

re_set_range : List ℕ → ℕ → ℕ → List ℕ
unfolding set_range_loop
re_set_range s first last = if ltb last first then s else set_range_loop (last + 1 - first) first s

-- `*cursor` read as an escape or as itself; `none` is the error `REG_EESCAPE`.
unfoldable pub re_parse_escape : List ℕ → Option (ℕ × List ℕ)
re_parse_escape p =
    let c = get_or p 0 0 in
    let e = get_or p 1 0 in
    let rest = drop 2 p in
    if not (c == b'\\')
    then some (c, drop 1 p)
    else if e == b'n'
    then some (10, rest)
    else if e == b't'
    then some (9, rest)
    else if e == b'r'
    then some (13, rest)
    else if e == b'f'
    then some (12, rest)
    else if e == b'v'
    then some (11, rest)
    else if e == b'a'
    then some (7, rest)
    else if e == b'0'
    then some (0, rest)
    else if e == 0
    then none
    else some (e, rest)

abbrev pub classes : List (List ℕ × ℕ × ℕ)
classes =
    (codes "alpha:", b'a', b'z')
    ∷ (codes "alpha:", b'A', b'Z')
    ∷ (codes "digit:", b'0', b'9')
    ∷ (codes "lower:", b'a', b'z')
    ∷ (codes "upper:", b'A', b'Z')
    ∷ (codes "space:", 9, 13)
    ∷ (codes "space:", 32, 32)
    ∷ (codes "blank:", 9, 9)
    ∷ (codes "blank:", 32, 32)
    ∷ (codes "punct:", 33, 47)
    ∷ (codes "punct:", 58, 64)
    ∷ (codes "punct:", 91, 96)
    ∷ (codes "punct:", 123, 126)
    ∷ (codes "cntrl:", 0, 31)
    ∷ (codes "cntrl:", 127, 127)
    ∷ (codes "xdigit:", b'0', b'9')
    ∷ (codes "xdigit:", b'A', b'F')
    ∷ (codes "xdigit:", b'a', b'f')
    ∷ (codes "alnum:", b'0', b'9')
    ∷ (codes "alnum:", b'A', b'Z')
    ∷ (codes "alnum:", b'a', b'z')
    ∷ (codes "print:", 32, 126)
    ∷ (codes "graph:", 33, 126)
    ∷ []

-- The first entry whose name stands at `p` with a bracket behind it.
find_class : List (List ℕ × ℕ × ℕ) → List ℕ → List ℕ → Option (List ℕ × List ℕ)
unfolding after_prefix re_set_range
find_class [] p s = none
find_class ((name, first, last) ∷ more) p s =
    let rest = find_class more p s in
    elim (after_prefix name p) [
      | none ↦ rest
      | some q ↦ if get_or q 0 0 == b']' then some (drop 1 q, re_set_range s first last) else rest
    ]

re_named_class : List ℕ → List ℕ → Option (List ℕ × List ℕ)
unfolding find_class
re_named_class p s =
    if get_or p 0 0 == b'[' && get_or p 1 0 == b':' then find_class classes (drop 2 p) s else none

-- How the loop of `re_compile_class` ends.
pub data Bracket : Type 0 where
  closed : List ℕ → List ℕ → Bracket
  refused : ℕ → Bracket
  no_fuel : Bracket

-- One character or range.
bracket_item : List ℕ → List ℕ → Bracket
unfolding re_parse_escape re_set_range set_char
bracket_item p s = elim (re_parse_escape p) [
  | none ↦ refused reg_eescape
  | some (first, q) ↦
      if get_or q 0 0 == b'-' && not (get_or q 1 0 == b']') && not (get_or q 1 0 == 0)
      then elim (re_parse_escape (drop 1 q)) [
        | none ↦ refused reg_eescape
        | some (last, q') ↦
            if ltb last first then refused reg_erange else closed q' (re_set_range s first last)
      ]
      else closed q (set_char s first)
]

-- Each round reads a character, so fuel above the length of the pattern is enough.
bracket_loop : ℕ → List ℕ → List ℕ → Bracket
unfolding bracket_item re_named_class
bracket_loop zero p s = no_fuel
bracket_loop (suc fuel) p s =
    if get_or p 0 0 == 0 || get_or p 0 0 == b']' then closed p s else elim (re_named_class p s) [
      | some (q, s') ↦ bracket_loop fuel q s'
      | none ↦
          if get_or p 0 0 == b'[' && get_or p 1 0 == b':'
          then refused reg_ectype
          else elim (bracket_item p s) [
            | closed q s' ↦ bracket_loop fuel q s'
            | refused code ↦ refused code
            | no_fuel ↦ no_fuel
          ]
    ]

-- `~` on a byte.
abbrev pub complement : List ℕ → List ℕ
complement = map (λ b. 255 - b)

module _ (grow : ℕ → Bool) where
  abbrev emit_class : List ℕ → M ℕ
  emit_class s = do
    index ← re_emit grow Op.class
    modify index (λ i. record i { set = s })
    pure index

  unfoldable pub re_compile_class : M ℕ
  unfolding bracket_loop re_emit set_char
  re_compile_class c =
      let p = drop 1 c.cursor in
      let negated = get_or p 0 0 == b'^' in
      let p' = if negated then drop 1 p else p in
      let first = get_or p' 0 0 == b']' in
      let s = if first then set_char empty_set b']' else empty_set in
      let p'' = if first then drop 1 p' else p' in
      elim (bracket_loop (length p'' + 1) p'' s) [
        | no_fuel ↦ Step.no_fuel
        | refused code ↦ fail_with code c
        | closed q s' ↦
            if not (get_or q 0 0 == b']')
            then fail_with reg_ebrack c
            else (do
              index ← emit_class (if negated then complement s' else s')
              move_to (drop 1 q)
              pure index)
                c
      ]

  -- The set of `\w`, `\d` and `\s`.
  simple_set : ℕ → List ℕ
  unfolding re_set_range set_char
  simple_set kind =
      if kind == b'w'
      then set_char
          (re_set_range (re_set_range (re_set_range empty_set b'0' b'9') b'a' b'z') b'A' b'Z') b'_'
      else if kind == b'd'
      then re_set_range empty_set b'0' b'9'
      else if kind == b's'
      then set_char (set_char (set_char (set_char (set_char (set_char empty_set 32) 9) 10) 13) 12)
          11
      else empty_set

  unfoldable pub re_compile_simple_class : ℕ → Bool → M (Unit {0})
  unfolding simple_set re_emit
  re_compile_simple_class kind negate =
      ignore (emit_class (if negate then complement (simple_set kind) else simple_set kind))
