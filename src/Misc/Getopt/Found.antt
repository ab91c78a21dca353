-- ===== src/Misc/Getopt/Found.antt =====
-- The calls of `getopt` find the options of one argument.
use lamp_userspace.Prelude.{
  ℕ, ◌+◌, ◌<◌, ◌≡◌, refl, ap, ◌∙◌, Bool, true, false, List, [], ◌∷◌, map, length, drop, Option,
  none, some, arith, ltb-true, ltb-false,
}
use lamp_userspace.Misc.Getopt.{Getopt, kind_of, take_argument, take_option}
use lamp_userspace.Misc.Getopt.Options.{
  Event, event, Letters, takes_argument, lacking, letter, letters, Found, continue,
}
use lamp_userspace.Misc.Getopt.Kinds.{kind_as, kind_of_lem, missing_lem}
use lamp_userspace.Misc.Getopt.Run.{
  drop_cons, drop_nil, variables, Ended, call, getopt_char, Finds, Finds-more, Finds-nothing,
}

continue_cons :
    (optstring : List ℕ) (e : Event) (l : Letters) (args : List (List ℕ)) (later much_later : Found)
    → continue optstring (e ∷ l.0, l.1) args later much_later
      ≡ (let f = continue optstring l args later much_later in (e ∷ f.0, f.1))
continue_cons optstring e (es, none) args later much_later = refl
continue_cons optstring e (es, some c) [] later much_later = refl
continue_cons optstring e (es, some c) (b ∷ args) later much_later = refl

module _ (argv : List (Option (List ℕ))) (optstring : List ℕ) where
  -- Between two arguments, at this index, the calls find this.
  abbrev pub Between : ℕ → Found → Type 0
  Between i found =
      (a p : Option (List ℕ)) (o : ℕ) → Ended p → Finds argv optstring (variables a i o p) found

  module _ (i : ℕ) (pos : 0 < i) (args : List (List ℕ)) (later much_later : Found)
      (behind : Between (i + 1) later) where
    -- In an argument, before the bytes that are left of it.
    abbrev Within : List ℕ → Type 0
    Within [] = Between (i + 1) later
    Within (c ∷ rest) =
        (o : ℕ)
        → Finds argv optstring (variables none i o (some (c ∷ rest)))
            (continue optstring (letters optstring (c ∷ rest)) args later much_later)

    abbrev pub Skips : List (List ℕ) → Type 0
    Skips [] = Unit
    Skips (b ∷ more_args) = Between (i + 1 + 1) much_later

    waits_Finds_end :
        (g : Getopt) (c : ℕ) (p : Option (List ℕ))
        → call argv optstring g
          ≡ take_argument (length argv) argv optstring c [] (variables none i c p)
        → drop (i + 1) argv ≡ []
        → Finds argv optstring g (event (lacking optstring) none c ∷ [], [])
    waits_Finds_end g c p e d =
        Finds-more argv optstring g (variables none (i + 1) c (some [])) (lacking optstring)
          ([], [])
          (e
            ∙ rw (ltb-false (i + 1) (length argv) (drop_nil argv (i + 1) d)) (
                ap (λ (code : ℕ). (some code, variables none (i + 1) c (some [])))
                  (missing_lem optstring)))
          (Finds-nothing argv optstring none (some []) (i + 1) c (omega arith) tt d)

    waits_Finds_more :
        (g : Getopt) (c : ℕ) (p : Option (List ℕ)) (b : List ℕ) (more_args : List (List ℕ))
        → call argv optstring g
          ≡ take_argument (length argv) argv optstring c [] (variables none i c p)
        → drop (i + 1) argv ≡ map some (b ∷ more_args)
        → Between (i + 1 + 1) much_later
        → Finds argv optstring g (event c (some b) c ∷ much_later.0, much_later.1)
    waits_Finds_more g c p b more_args e d skips =
        let found = drop_cons argv (i + 1) (some b) (map some more_args) d in
        Finds-more argv optstring g (variables (some b) (i + 1 + 1) c none) c much_later
          (e ∙ rw (ltb-true (i + 1) (length argv) found.1.1, found.0) refl)
          (skips (some b) none c tt)

    waits_Finds :
        (g : Getopt) (c : ℕ) (p : Option (List ℕ)) (args : List (List ℕ))
        → call argv optstring g
          ≡ take_argument (length argv) argv optstring c [] (variables none i c p)
        → drop (i + 1) argv ≡ map some args
        → Skips args
        → Finds argv optstring g (continue optstring ([], some c) args later much_later)
    waits_Finds g c p [] e d skips = waits_Finds_end g c p e d
    waits_Finds g c p (b ∷ more_args) e d skips = waits_Finds_more g c p b more_args e d skips

    option_Finds :
        (k : Option Bool) (g : Getopt) (c : ℕ) (rest : List ℕ) (p : Option (List ℕ))
        → call argv optstring g
          ≡ take_option (length argv) argv optstring (kind_as k) c rest (variables none i c p)
        → drop (i + 1) argv ≡ map some args
        → Skips args
        → Within rest
        → Finds argv optstring g
            (continue optstring (letter k c rest (letters optstring rest)) args later much_later)
    option_Finds none g c [] p e d skips within =
        Finds-more argv optstring g _ b'?' later e (within none (some []) c tt)
    option_Finds none g c (x ∷ s) p e d skips within =
        rw
          (continue_cons optstring (event b'?' none c) (letters optstring (x ∷ s)) args later
            much_later)
          (Finds-more argv optstring g _ b'?' _ e (within c))
    option_Finds (some false) g c [] p e d skips within =
        Finds-more argv optstring g _ c later e (within none none c tt)
    option_Finds (some false) g c (x ∷ s) p e d skips within =
        rw
          (continue_cons optstring (event c none c) (letters optstring (x ∷ s)) args later
            much_later)
          (Finds-more argv optstring g _ c _ e (within c))
    option_Finds (some true) g c (x ∷ s) p e d skips within =
        Finds-more argv optstring g _ c later e (behind (some (x ∷ s)) none c tt)
    option_Finds (some true) g c [] p e d skips within = waits_Finds g c p args e d skips

    by_kind :
        (c : ℕ) (rest : List ℕ) (p : Option (List ℕ))
        → take_option
            (length argv)
            argv
            optstring
            (kind_of optstring c)
            c
            rest
            (variables none i c p)
          ≡ take_option
              (length argv)
              argv
              optstring
              (kind_as (takes_argument optstring c))
              c
              rest
              (variables none i c p)
    by_kind c rest p =
        ap (λ k. take_option (length argv) argv optstring k c rest (variables none i c p))
          (kind_of_lem optstring c)

    -- All the options of one argument, from its first letter on.
    pub cluster_Finds :
        (rest : List ℕ) (g : Getopt) (c : ℕ) (p : Option (List ℕ))
        → call argv optstring g
          ≡ take_option
              (length argv)
              argv
              optstring
              (kind_of optstring c)
              c
              rest
              (variables none i c p)
        → drop (i + 1) argv ≡ map some args
        → Skips args
        → Finds argv optstring g
            (continue optstring (letters optstring (c ∷ rest)) args later much_later)
    cluster_Finds [] g c p e d skips =
        option_Finds (takes_argument optstring c) g c [] p (e ∙ by_kind c [] p) d skips behind
    cluster_Finds (x ∷ s) g c p e d skips =
        option_Finds (takes_argument optstring c) g c (x ∷ s) p (e ∙ by_kind c (x ∷ s) p) d skips
          (λ o.
            cluster_Finds s (variables none i o (some (x ∷ s))) x (some (x ∷ s))
              (getopt_char argv optstring none i o x s pos) d skips)
