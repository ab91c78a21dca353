-- ===== src/Misc/Getopt/Run.antt =====
-- The calls of `getopt` until it gives -1, and what each of them does.
use lamp_userspace.Prelude.{
  ℕ, zero, suc, ◌≤◌, ◌<◌, ◌≡◌, refl, ap, ◌∙◌, List, [], ◌∷◌, map, length, drop, Option, none, some,
  arith, ==-false, leb-true,
}
use lamp_userspace.Misc.Getopt.{
  Getopt, reset, argument_at, next_argument, next_char, kind_of, take_option, take_next, getopt,
}
use lamp_userspace.Misc.Getopt.Options.{Event, event, Found}

pub drop_cons :
    (xs : List (Option (List ℕ))) (i : ℕ) (a : Option (List ℕ)) (ys : List (Option (List ℕ)))
    → drop i xs ≡ a ∷ ys
    → (argument_at xs i ≡ a) × ((drop (suc i) xs ≡ ys) × (i < length xs))
drop_cons [] zero a ys e = cc
drop_cons [] (suc i) a ys e = cc
drop_cons (x ∷ xs) zero a ys e = (cc, (cc, omega arith))
drop_cons (x ∷ xs) (suc i) a ys e =
    let h = drop_cons xs i a ys e in (h.0, (h.1.0, omega (arith, h.1.1)))

pub drop_nil : (xs : List (Option (List ℕ))) (i : ℕ) → drop i xs ≡ [] → length xs ≤ i
drop_nil [] i e = omega arith
drop_nil (x ∷ xs) zero e = cc
drop_nil (x ∷ xs) (suc i) e = omega (arith, drop_nil xs i e)

abbrev pub variables : Option (List ℕ) → ℕ → ℕ → Option (List ℕ) → Getopt
variables a i o p = record { optarg = a; optind = i; optopt = o; position = p }

-- No argument is open.
abbrev pub Ended : Option (List ℕ) → Type 0
Ended none = Unit
Ended (some []) = Unit
Ended (some (c ∷ s)) = ⊥

module _ (argv : List (Option (List ℕ))) (optstring : List ℕ) where
  abbrev pub call : Getopt → Option ℕ × Getopt
  call g = getopt (length argv) argv optstring g

  -- The events of the calls from a state on, up to the one that gives -1.
  pub data Calls : Getopt → List Event → Getopt → Type 0 where
    last : {g g' : Getopt} → call g ≡ (none, g') → Calls g [] g'
    more :
        {g g' g'' : Getopt} {c : ℕ} {events : List Event}
        → call g ≡ (some c, g')
        → Calls g' events g''
        → Calls g (event c g'.optarg g'.optopt ∷ events) g''

  reset_lem :
      (a p : Option (List ℕ)) (i o : ℕ) → 0 < i → reset (variables a i o p) ≡ variables none i o p
  reset_lem a p i o h = rw (==-false i 0 (λ e. omega (arith, e, h))) refl

  pub getopt_char :
      (a : Option (List ℕ)) (i o c : ℕ) (rest : List ℕ)
      → 0 < i
      → call (variables a i o (some (c ∷ rest)))
        ≡ take_option
            (length argv)
            argv
            optstring
            (kind_of optstring c)
            c
            rest
            (variables none i c (some (c ∷ rest)))
  unfolding getopt
  getopt_char a i o c rest pos =
      ap
        (λ (g : Getopt).
          take_next (length argv) argv optstring (next_char (length argv) argv g.position g))
        (reset_lem a (some (c ∷ rest)) i o pos)

  pub getopt-Ended :
      (a p : Option (List ℕ)) (i o : ℕ)
      → 0 < i
      → Ended p
      → call (variables a i o p)
        ≡ take_next
            (length argv)
            argv
            optstring
            (next_argument (length argv) argv (variables none i o p))
  unfolding getopt
  getopt-Ended a none i o pos h =
      ap
        (λ (g : Getopt).
          take_next (length argv) argv optstring (next_char (length argv) argv g.position g))
        (reset_lem a none i o pos)
  getopt-Ended a (some []) i o pos h =
      ap
        (λ (g : Getopt).
          take_next (length argv) argv optstring (next_char (length argv) argv g.position g))
        (reset_lem a (some []) i o pos)
  getopt-Ended a (some (c ∷ s)) i o pos h = elim h [ ]

  -- From the state, the calls find this.
  pub record Finds (g : Getopt) (found : Found) : Type 0 where
    pub final : Getopt
    pub calls : Calls g found.0 final
    pub left : drop final.optind argv ≡ map some found.1

  pub Finds-more :
      (g g' : Getopt) (c : ℕ) (found : Found)
      → call g ≡ (some c, g')
      → Finds g' found
      → Finds g (event c g'.optarg g'.optopt ∷ found.0, found.1)
  Finds-more g g' c found e h = record { final = h.final; calls = more e h.calls; left = h.left }

  -- Behind the last argument nothing is found.
  pub Finds-nothing :
      (a p : Option (List ℕ)) (i o : ℕ)
      → 0 < i
      → Ended p
      → drop i argv ≡ []
      → Finds (variables a i o p) ([], [])
  Finds-nothing a p i o pos h e = record {
    final = variables none i o p;
    calls =
        last (getopt-Ended a p i o pos h ∙ rw (leb-true (length argv) i (drop_nil argv i e)) refl);
    left = e;
  }
