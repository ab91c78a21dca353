-- ===== src/Regex/Compile.antt =====
-- lib/libc_regex.c, the state of the pattern compiler and the functions that write instructions.
-- Whether `realloc` can give a capacity is the parameter `grow`.
pub mod Class
pub mod Parse
pub mod Quantifier
pub mod Pattern
pub mod Regcomp
use lamp_userspace.Prelude.{
  ℕ, zero, suc, ◌+◌, ◌-◌, ◌*◌, Bool, true, false, not, ◌&&◌, ◌||◌, List, [], ◌∷◌, ◌++◌, map, ltb,
  leb, ◌==◌, if◌then◌else◌, get_or, set, take, drop, length, Option, none, some,
}
use lamp_userspace.Regex.{Op, Inst, CompileFlags, blank}

-- `re_compiler`. The length is that of the program, and `extended` is a bit of `cflags`. The cursor
-- is the rest of the pattern, whose terminator reads as 0.
pub record Compiler : Type 0 where
  pub program : List Inst
  pub capacity : ℕ
  pub cursor : List ℕ
  pub cflags : CompileFlags
  pub groups : ℕ
  pub error : ℕ

-- How a function that returns an `int` ends: with a result, with -1, or the model is out of fuel.
pub data Step {ℓ} (A : Type ℓ) : Type ℓ where
  ok : A → Compiler → Step A
  minus_one : Compiler → Step A
  no_fuel : Step A

abbrev pub M {ℓ} : Type ℓ → Type ℓ
M A = Compiler → Step A

infixl 5 ◌>>=◌ ◌>>◌
abbrev pub ◌>>=◌ {ℓ κ} : {A : Type ℓ} {B : Type κ} → M A → (A → M B) → M B
◌>>=◌ m f c = elim (m c) [ ok a c' ↦ f a c' | minus_one c' ↦ minus_one c' | no_fuel ↦ no_fuel ]

abbrev pub ◌>>◌ {ℓ} : {B : Type ℓ} → M (Unit {0}) → M B → M B
◌>>◌ m k = m >>= λ _. k

abbrev pub pure {ℓ} : {A : Type ℓ} → A → M A
pure a c = ok a c

abbrev pub get : M Compiler
get c = ok c c

abbrev pub return_minus_one {ℓ} : {A : Type ℓ} → M A
return_minus_one c = minus_one c

abbrev pub fail_with {ℓ} : {A : Type ℓ} → ℕ → M A
fail_with code c = minus_one (record c { error = code })

abbrev pub move_to : List ℕ → M (Unit {0})
move_to p c = ok tt (record c { cursor = p })

-- `c->program[index].f = …` for the fields that are written so.
abbrev pub modify : ℕ → (Inst → Inst) → M (Unit {0})
modify index f c =
    ok tt (record c { program = set c.program index (f (get_or c.program index (blank Op.char))) })

abbrev pub put_x : ℕ → ℕ → M (Unit {0})
put_x index x = modify index (λ i. record i { x = x })

abbrev pub put_y : ℕ → ℕ → M (Unit {0})
put_y index y = modify index (λ i. record i { y = y })

-- A function with no result that returns early where another gives -1.
abbrev pub ignore {ℓ} : {A : Type ℓ} → M A → M (Unit {0})
ignore m c = elim (m c) [ ok _ c' ↦ ok tt c' | minus_one c' ↦ ok tt c' | no_fuel ↦ no_fuel ]

abbrev pub reg_espace : ℕ
reg_espace = 12

-- The moves of the targets when an instruction is inserted at `index`: of every `x` and `y`,
-- whatever the instruction uses them for.
moved_up : ℕ → Inst → Inst
moved_up index i = record i {
  x = if leb index i.x then i.x + 1 else i.x;
  y = if leb index i.y then i.y + 1 else i.y;
}

moved_by : ℕ → ℕ → ℕ → Inst → Inst
moved_by start end delta i = record i {
  x = if leb start i.x && leb i.x end then i.x + delta else i.x;
  y = if leb start i.y && leb i.y end then i.y + delta else i.y;
}

-- The loop that doubles the capacity; a capacity that is not zero needs `need` rounds at most.
doubled : ℕ → ℕ → ℕ → ℕ
doubled zero need capacity = capacity
doubled (suc left) need capacity =
    let more = doubled left need (if capacity == 0 then 32 else capacity * 2) in
    if ltb capacity need then more else capacity

module _ (grow : ℕ → Bool) where
  -- Room for one more instruction.
  reserve : M (Unit {0})
  reserve c =
      if length c.program == c.capacity
      then (let capacity = if c.capacity == 0 then 32 else c.capacity * 2 in
          if grow capacity
          then ok tt (record c { capacity = capacity })
          else minus_one (record c { error = reg_espace }))
      else ok tt c

  pub re_emit : Op → M ℕ
  unfolding reserve
  re_emit op = do
    reserve
    c ← get
    λ c. ok (length c.program) (record c { program = c.program ++ blank op ∷ [] })

  pub re_insert : ℕ → M ℕ
  unfolding reserve moved_up
  re_insert index = do
    reserve
    λ c. ok index (record c {
      program =
          map (moved_up index) (take index c.program ++ (blank Op.char ∷ drop index c.program));
    })

  pub re_copy_block : ℕ → ℕ → M ℕ
  unfolding moved_by doubled
  re_copy_block start end c =
      let count = end - start in
      let old_length = length c.program in
      let delta = old_length - start in
      let copies = map (moved_by start end delta) (take count (drop start c.program)) in
      if count == 0 || not (c.error == 0)
      then ok old_length c
      else if ltb c.capacity (old_length + count)
      then (let capacity = doubled (old_length + count + 1) (old_length + count) c.capacity in
          if grow capacity
          then ok old_length (record c { program = c.program ++ copies; capacity = capacity })
          else minus_one (record c { error = reg_espace }))
      else ok old_length (record c { program = c.program ++ copies })

  pub re_wrap_optional : ℕ → M ℕ
  unfolding re_insert
  re_wrap_optional start = do
    split ← re_insert start
    c ← get
    modify split (λ i. record i { op = Op.split; x = start + 1; y = length c.program })
    pure 0

  pub re_wrap_star : ℕ → M ℕ
  unfolding re_insert re_emit
  re_wrap_star start = do
    split ← re_insert start
    c ← get
    modify split (λ i. record i { op = Op.split; x = start + 1; y = length c.program })
    jump ← re_emit Op.jmp
    put_x jump split
    pure 0
