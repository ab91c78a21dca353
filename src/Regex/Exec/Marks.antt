-- ===== src/Regex/Exec/Marks.antt =====
-- The visit marks of `re_run`: what one of its calls does to them, and what a failed search leaves.
use lamp_userspace.Prelude.{
  ℕ, zero, suc, ◌+◌, ◌*◌, ◌/◌, ap, div_unique, ◌≤◌, ◌≡◌, ◌≢◌, ◌⊎◌, inl, inr, refl, List, [], ◌∷◌,
  get_elem?, set, length, none, some, ◌==◌, if◌then◌else◌, arith,
}
use lamp_userspace.Regex.{Op, Inst, Flags}
use lamp_userspace.Regex.Exec.{state_of, consumes}
use lamp_userspace.Regex.Nfa.{
  Edge, consume, test, first, second, jump, record_offset, Accepts, stop, move,
}

-- How many entries do not hold the mark of this search.
pub unmarked : ℕ → List ℕ → ℕ
unmarked g [] = 0
unmarked g (k ∷ ks) = if k == g then unmarked g ks else suc (unmarked g ks)

module _ (program : List Inst) (text : List ℕ) (flags : Flags) (g : ℕ) where
  abbrev pub Marked : List ℕ → ℕ → ℕ → Type 0
  Marked marks pc pos = get_elem? marks (state_of text pc pos) ≡ some g

  -- Nothing is left to try at this state.
  abbrev pub Visited : List ℕ → ℕ → ℕ → Type 0
  Visited marks pc pos = (get_elem? program pc ≡ none) ⊎ Marked marks pc pos

  abbrev pub Expanded : List ℕ → ℕ → ℕ → Type 0
  Expanded marks pc pos =
      (i : Inst)
      → get_elem? program pc ≡ some i
      → (i.op ≢ Op.match)
        × ((pc' pos' : ℕ) → Edge text flags i pc pos pc' pos' → Visited marks pc' pos')

  -- A search that failed went from `marks` to `marks'`.
  pub record Extends (marks marks' : List ℕ) : Type 0 where
    pub size : length marks' ≡ length marks
    pub old : (k : ℕ) → (get_elem? marks' k ≡ get_elem? marks k) ⊎ (get_elem? marks' k ≡ some g)
    pub fewer : unmarked g marks' ≤ unmarked g marks
    pub closed :
        (pc pos : ℕ)
        → pos ≤ length text
        → Marked marks' pc pos
        → Marked marks pc pos ⊎ Expanded marks' pc pos

  pub Marked-later :
      {marks marks' : List ℕ}
      → Extends marks marks'
      → (pc pos : ℕ) → Marked marks pc pos
      → Marked marks' pc pos
  Marked-later e pc pos h = elim (e.old (state_of text pc pos)) [ inl same ↦ cc | inr new ↦ new ]

  pub Visited-later :
      {marks marks' : List ℕ}
      → Extends marks marks'
      → (pc pos : ℕ) → Visited marks pc pos
      → Visited marks' pc pos
  Visited-later e pc pos (inl out) = inl out
  Visited-later e pc pos (inr h) = inr (Marked-later e pc pos h)

  pub Extends-refl : (marks : List ℕ) → Extends marks marks
  Extends-refl marks = record {
    size = refl;
    old = λ k. inl refl;
    fewer = omega arith;
    closed = λ pc pos p h. inl h;
  }

  pub Extends-trans : {a b c : List ℕ} → Extends a b → Extends b c → Extends a c
  Extends-trans {a} {b} {c} e f = record {
    size = cc (e.size, f.size);
    old = λ k. elim (f.old k) [
      | inr new ↦ inr new
      | inl same ↦ elim (e.old k) [ inl same' ↦ inl (cc) | inr new ↦ inr (cc) ]
    ];
    fewer = omega (arith, e.fewer, f.fewer);
    closed = λ pc pos p h. elim (f.closed pc pos p h) [
      | inr done ↦ inr done
      | inl before ↦ elim (e.closed pc pos p before) [
        | inl earlier ↦ inl earlier
        | inr done ↦ inr (λ i at. (
          (done i at).0,
          λ pc' pos' edge. Visited-later f pc' pos' ((done i at).1 pc' pos' edge),
        ))
      ]
    ];
  }

  -- Moves stay inside the text.
  pub Edge-inside :
      (i : Inst) {pc pos pc' pos' : ℕ}
      → Edge text flags i pc pos pc' pos'
      → pos ≤ length text
      → pos' ≤ length text
  unfolding consumes
  Edge-inside i (consume c _ e) h = ground arith
  Edge-inside i (test _ _ e) h = omega arith
  Edge-inside i (first _ _ e) h = omega arith
  Edge-inside i (second _ _ e) h = omega arith
  Edge-inside i (jump _ _ e) h = omega arith
  Edge-inside i (record_offset _ _ e) h = omega arith

  -- With no mark at the start, a state from which the program accepts stays unmarked.
  pub not-Accepts :
      (marks : List ℕ)
      → ((pc pos : ℕ) → pos ≤ length text → Marked marks pc pos → Expanded marks pc pos)
      → {pc pos : ℕ} → pos ≤ length text
      → Accepts program text flags pc pos
      → ¬ Visited marks pc pos
  not-Accepts marks all p (stop at last) (inl out) = cc
  not-Accepts marks all {pc} {pos} p (stop {i = i} at last) (inr mark) =
      (all pc pos p mark i at).0 last
  not-Accepts marks all p (move at edge rest) (inl out) = cc
  not-Accepts marks all {pc} {pos} p (move {i = i} {pc' = pc'} {pos' = pos'} at edge rest)
        (inr mark) =
      not-Accepts marks all (Edge-inside i edge p) rest ((all pc pos p mark i at).1 pc' pos' edge)

pub unmarked-le : (g : ℕ) (marks : List ℕ) → unmarked g marks ≤ length marks
unfolding unmarked
unmarked-le g [] = omega arith
unmarked-le g (k ∷ ks) = ground (arith, unmarked-le g ks)

-- Marking a state that had another mark.
pub unmarked-set :
    (g : ℕ) (marks : List ℕ) (k : ℕ) {old : ℕ}
    → get_elem? marks k ≡ some old
    → old ≢ g
    → suc (unmarked g (set marks k g)) ≡ unmarked g marks
unfolding unmarked
unmarked-set g [] k at h = cc
unmarked-set g (m ∷ marks) zero at h = ground arith
unmarked-set g (m ∷ marks) (suc k) at h = ground (arith, unmarked-set g marks k at h)

-- Two states inside the text have two indices.
pub state_of-injective :
    (text : List ℕ) (pc pos pc' pos' : ℕ)
    → pos ≤ length text
    → pos' ≤ length text
    → state_of text pc pos ≡ state_of text pc' pos'
    → (pc ≡ pc') × (pos ≡ pos')
state_of-injective text pc pos pc' pos' h h' e =
    let n = length text + 1 in
    let q : state_of text pc pos / n ≡ pc =
      div_unique (state_of text pc pos) n pc pos refl (omega arith) in
    let q' : state_of text pc pos / n ≡ pc' =
      div_unique (state_of text pc pos) n pc' pos' (omega arith) (omega arith) in
    let same : pc ≡ pc' = cc in (same, omega (arith, ap (λ (t : ℕ). t * n) same))
