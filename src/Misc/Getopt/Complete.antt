-- ===== src/Misc/Getopt/Complete.antt =====
-- The calls of `getopt` until it gives -1 find the options of all arguments.
use lamp_userspace.Prelude.{
  ℕ, zero, suc, ◌+◌, ◌<◌, ◌≡◌, refl, ap, ◌∙◌, ◌==◌, List, [], ◌∷◌, map, length, drop, Option, none,
  some, arith, leb-false, Bool-cases, inl, inr,
}
use lamp_userspace.Misc.Getopt.{
  Getopt, Next, finished, option_char, open_argument, next_argument, take_next, getopt,
}
use lamp_userspace.Misc.Getopt.Options.{
  Event, event, Shape, operand, double_dash, cluster, shape_of, Found, by_shape, options,
}
use lamp_userspace.Misc.Getopt.Run.{
  drop_cons, variables, call, Calls, last, more, getopt-Ended, Finds, Finds-nothing,
}
use lamp_userspace.Misc.Getopt.Found.{Between, Skips, cluster_Finds}

-- What `open_argument` makes of a shape.
abbrev opened : Shape → Getopt → Next
opened operand g = finished g
opened double_dash g = finished (record g { optind = g.optind + 1 })
opened (cluster d s) g = option_char d s g

open_argument-shape : (a : List ℕ) (g : Getopt) → open_argument (some a) g ≡ opened (shape_of a) g
open_argument-shape [] g = refl
open_argument-shape (c ∷ []) g = refl
open_argument-shape (c ∷ d ∷ []) g = elim (Bool-cases (c == b'-')) [
  | inl dash ↦ elim (Bool-cases (d == b'-')) [
    | inl y ↦ rw (dash, y) refl
    | inr n ↦ rw (dash, n) refl
  ]
  | inr no_dash ↦ rw no_dash refl
]
open_argument-shape (c ∷ d ∷ e ∷ s) g = elim (Bool-cases (c == b'-')) [
  | inl dash ↦ rw dash refl
  | inr no_dash ↦ rw no_dash refl
]

module _ (argv : List (Option (List ℕ))) (optstring : List ℕ) where
  shape_Finds :
      (i : ℕ) (pos : 0 < i) (a : List ℕ) (args : List (List ℕ)) (later much_later : Found)
      (behind : Between argv optstring (i + 1) later)
      (skips : Skips argv optstring i pos args later much_later behind args) (p : Option (List ℕ))
      (g : Getopt) (o : ℕ) (k : Shape)
      → call argv optstring g
        ≡ take_next (length argv) argv optstring (opened k (variables none i o p))
      → drop i argv ≡ map some (a ∷ args)
      → drop (i + 1) argv ≡ map some args
      → Finds argv optstring g (by_shape optstring k a args later much_later)
  shape_Finds i pos a args later much_later behind skips p g o operand e here next = record {
    final = variables none i o p;
    calls = last e;
    left = here;
  }
  shape_Finds i pos a args later much_later behind skips p g o double_dash e here next = record {
    final = variables none (i + 1) o p;
    calls = last e;
    left = next;
  }
  shape_Finds i pos a args later much_later behind skips p g o (cluster d s) e here next =
      cluster_Finds argv optstring i pos args later much_later behind s g d p e next skips

  rest_of :
      (i : ℕ) (a : List ℕ) (args : List (List ℕ))
      → drop i argv ≡ map some (a ∷ args)
      → drop (i + 1) argv ≡ map some args
  rest_of i a args d =
      ap (λ (n : ℕ). drop n argv) {y = suc i} (omega arith)
      ∙ (drop_cons argv i (some a) (map some args) d).1.0

  argument_Finds :
      (i : ℕ) (pos : 0 < i) (a : List ℕ) (args : List (List ℕ)) (later much_later : Found)
      (behind : Between argv optstring (i + 1) later)
      (skips : Skips argv optstring i pos args later much_later behind args)
      → drop i argv ≡ map some (a ∷ args)
      → Between argv optstring i (by_shape optstring (shape_of a) a args later much_later)
  argument_Finds i pos a args later much_later behind skips d v p o ended =
      let found = drop_cons argv i (some a) (map some args) d in
      let start = variables none i o p in
      let opens : next_argument (length argv) argv start ≡ opened (shape_of a) start =
        rw (leb-false (length argv) i found.1.1, found.0) (open_argument-shape a start) in
      shape_Finds i pos a args later much_later behind skips p (variables v i o p) o (shape_of a)
        (getopt-Ended argv optstring v p i o pos ended
          ∙ ap (take_next (length argv) argv optstring) opens)
        d (rest_of i a args d)

  options_Finds :
      (args : List (List ℕ)) (i : ℕ)
      → 0 < i
      → drop i argv ≡ map some args
      → Between argv optstring i (options optstring args)
  options_Finds [] i pos d = λ v p o ended. Finds-nothing argv optstring v p i o pos ended d
  options_Finds (a ∷ []) i pos d =
      argument_Finds i pos a [] ([], []) ([], [])
        (options_Finds [] (i + 1) (omega arith) (rest_of i a [] d)) tt d
  options_Finds (a ∷ b ∷ args) i pos d =
      let next = rest_of i a (b ∷ args) d in
      argument_Finds i pos a (b ∷ args) (options optstring (b ∷ args)) (options optstring args)
        (options_Finds (b ∷ args) (i + 1) (omega arith) next)
        (options_Finds args (i + 1 + 1) (omega arith) (rest_of (i + 1) b args next)) d

-- The calls one after another, up to the one that gives -1.
pub data Ran : Type 0 where
  ran : List Event → Getopt → Ran
  out_of_fuel : Ran

abbrev pub recorded : Event → Ran → Ran
recorded e (ran events g) = ran (e ∷ events) g
recorded e out_of_fuel = out_of_fuel

abbrev pub after_call : Option ℕ × Getopt → (Getopt → Ran) → Ran
after_call (none, g) next = ran [] g
after_call (some c, g) next = recorded (event c g.optarg g.optopt) (next g)

pub call_all : ℕ → List (Option (List ℕ)) → List ℕ → Getopt → Ran
call_all zero argv optstring g = out_of_fuel
call_all (suc fuel) argv optstring g =
    after_call (getopt (length argv) argv optstring g) (call_all fuel argv optstring)

call_all-Calls :
    (argv : List (Option (List ℕ))) (optstring : List ℕ) (g g' : Getopt) (events : List Event)
    (fuel : ℕ)
    → Calls argv optstring g events g'
    → length events < fuel
    → call_all fuel argv optstring g ≡ ran events g'
unfolding call_all
call_all-Calls argv optstring g g' events zero h enough = elim enough [ ]
call_all-Calls argv optstring g g' [] (suc fuel) (last e) enough =
    ap (λ r. after_call r (call_all fuel argv optstring)) e
call_all-Calls argv optstring g g' (x ∷ events) (suc fuel) (more e h) enough =
    ap (λ r. after_call r (call_all fuel argv optstring)) e
    ∙ ap (recorded x) (call_all-Calls argv optstring _ g' events fuel h (omega (arith, enough)))

-- Called again and again from its initial state, `getopt` gives the options of the arguments in their
-- order, each with its argument, unknown ones and missing arguments marked, then -1 after one call more
-- than there are options; and then the arguments from `optind` on are those that are no options.
pub getopt_lem :
    (program : Option (List ℕ)) (args : List (List ℕ)) (optstring : List ℕ) (fuel : ℕ)
    → length (options optstring args).0 < fuel
    → (final : Getopt) × ((call_all fuel
            (program ∷ map some args)
            optstring
            (variables none 1 0 none)
          ≡ ran (options optstring args).0 final)
        × (drop final.optind (program ∷ map some args) ≡ map some (options optstring args).1))
getopt_lem program args optstring fuel enough =
    let argv = program ∷ map some args in
    let found = options_Finds argv optstring args 1 (omega arith) refl none none 0 tt in
    (found.final, (call_all-Calls argv optstring _ _ _ fuel found.calls enough, found.left))
