-- ===== src/Regex/Nfa.antt =====
-- What a program of lib/libc_regex.c means, without the search: it is a nondeterministic automaton
-- over pairs of an instruction and a position in the text.
use lamp_userspace.Prelude.{ℕ, ◌+◌, ◌≡◌, true, List, get_elem?, set, Option, some}
use lamp_userspace.Regex.{Op, Inst, Flags}
use lamp_userspace.Regex.Exec.{consumes, holds}

-- The moves of instruction `i` at `pc` and `pos`.
pub data Edge (text : List ℕ) (flags : Flags) (i : Inst) (pc pos pc' pos' : ℕ) : Type 0 where
  consume :
      consumes text flags i pos ≡ true
      → pc' ≡ pc + 1
      → pos' ≡ pos + 1
      → Edge text flags i pc pos pc' pos'
  test :
      holds text flags i pos ≡ true → pc' ≡ pc + 1 → pos' ≡ pos → Edge text flags i pc pos pc' pos'
  first : i.op ≡ Op.split → pc' ≡ i.x → pos' ≡ pos → Edge text flags i pc pos pc' pos'
  second : i.op ≡ Op.split → pc' ≡ i.y → pos' ≡ pos → Edge text flags i pc pos pc' pos'
  jump : i.op ≡ Op.jmp → pc' ≡ i.x → pos' ≡ pos → Edge text flags i pc pos pc' pos'
  record_offset : i.op ≡ Op.save → pc' ≡ pc + 1 → pos' ≡ pos → Edge text flags i pc pos pc' pos'

-- Some sequence of moves leads to `RE_MATCH`.
pub data Accepts (program : List Inst) (text : List ℕ) (flags : Flags) : ℕ → ℕ → Type 0 where
  stop :
      {pc pos : ℕ} {i : Inst}
      → get_elem? program pc ≡ some i
      → i.op ≡ Op.match
      → Accepts program text flags pc pos
  move :
      {pc pos : ℕ} {i : Inst} {pc' pos' : ℕ}
      → get_elem? program pc ≡ some i
      → Edge text flags i pc pos pc' pos'
      → Accepts program text flags pc' pos'
      → Accepts program text flags pc pos

-- The captures behind an instruction: a save stores the position.
abbrev pub stored_by : Op → ℕ → ℕ → List (Option ℕ) → List (Option ℕ)
stored_by Op.save x pos c = set c x (some pos)
stored_by _ x pos c = c

-- Some sequence of moves leads to `RE_MATCH`, and the saves on the way turn the captures `c` into `d`.
pub data Records (program : List Inst) (text : List ℕ) (flags : Flags)
    : ℕ → ℕ → List (Option ℕ) → List (Option ℕ) → Type 0 where
  stop :
      {pc pos : ℕ} {c d : List (Option ℕ)} {i : Inst}
      → get_elem? program pc ≡ some i
      → i.op ≡ Op.match
      → d ≡ c
      → Records program text flags pc pos c d
  move :
      {pc pos : ℕ} {c d : List (Option ℕ)} {i : Inst} {pc' pos' : ℕ}
      → get_elem? program pc ≡ some i
      → Edge text flags i pc pos pc' pos'
      → Records program text flags pc' pos' (stored_by i.op i.x pos c) d
      → Records program text flags pc pos c d
