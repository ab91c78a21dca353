-- ===== src/Regex/Tests.antt =====
-- Runs of `regcomp` and `regexec` on the patterns of tests/regex.c and on those that go wrong, and
-- an instance of what is proved of the matcher.
use lamp_userspace.Prelude.{
  ℕ, zero, suc, ◌≡◌, ◌<◌, inl, refl, sym, true, false, List, [], ◌∷◌, none, some, replicate, arith,
}
use lamp_userspace.Prelude.Text.{codes}
use lamp_userspace.Regex.{Op, Inst, CompileFlags, ExecFlags, both_flags, Regex, class_match}
use lamp_userspace.Regex.Exec.{Memory, run, consumes, dispatch}
use lamp_userspace.Regex.Exec.Shows.{SavesWithin, Shows}
use lamp_userspace.Regex.Exec.Marks.{unmarked-le}
use lamp_userspace.Regex.Exec.Cases.{Ready}
use lamp_userspace.Regex.Exec.Run.{run_lem}
use lamp_userspace.Regex.Search.{
  Returned, returns, crash, Match, regexec, upto_match, search, report, copy_matches,
}
use lamp_userspace.Regex.Search.Rounds.{IsClean}
use lamp_userspace.Regex.Search.Correct.{Reports, regexec_lem}
use lamp_userspace.Regex.Compile.Regcomp.{compiled, regcomp}

abbrev basic : CompileFlags
basic = record { extended = false; icase = false; newline = false; nosub = false }

abbrev extended_syntax : CompileFlags
extended_syntax = record { extended = true; icase = false; newline = false; nosub = false }

abbrev at_line : ExecFlags
at_line = record { notbol = false; noteol = false }

abbrev unset : Match
unset = record { rm_so = none; rm_eo = none }

abbrev at_offsets : ℕ → ℕ → Match
at_offsets from to = record { rm_so = some from; rm_eo = some to }

abbrev three : Match → Match → Returned
three m m' = returns 0 (some (m ∷ m' ∷ unset ∷ []))

-- Compile, and search with three entries of `pmatch` and a cleared block for the marks.
unfoldable match_of : CompileFlags → List ℕ → List ℕ → Returned
unfolding regcomp regexec upto_match search report run dispatch consumes copy_matches
match_of flags pattern text = elim (regcomp (λ _. true) pattern flags) [
  | compiled code preg ↦
      regexec preg text 3 (some (unset ∷ unset ∷ unset ∷ [])) at_line true (some (replicate 2000 0))
  | _ ↦ crash
]

finds_abc : match_of basic (codes "abc") (codes "xxabcyy") ≡ three (at_offsets 2 5) unset
unfolding match_of
finds_abc = refl

finds_groups :
    match_of extended_syntax (codes "(ab)+") (codes "xxababyy")
    ≡ three (at_offsets 2 6) (at_offsets 4 6)
unfolding match_of
finds_groups = refl

finds_interval :
    match_of extended_syntax (codes "a{2,3}") (codes "xaaaa") ≡ three (at_offsets 1 4) unset
unfolding match_of
finds_interval = refl

-- The plus of a basic pattern is a character.
basic_plus :
    match_of basic (codes "ab+c") (codes "abbbc") ≡ returns 1 (some (unset ∷ unset ∷ unset ∷ []))
unfolding match_of
basic_plus = refl

-- Each alternation also matches the empty text.
empty_alternative :
    match_of extended_syntax (codes "cat|dog") (codes "hotdog") ≡ three (at_offsets 0 0) unset
unfolding match_of
empty_alternative = refl

-- The star of a group moves the capture slot of the group out of the captures.
starred_group : match_of extended_syntax (codes "(ab)*") (codes "abab") ≡ crash
unfolding match_of
starred_group = refl

-- The optional copies stop at one.
upper_bound : match_of extended_syntax (codes "a{0,2}") (codes "aa") ≡ three (at_offsets 0 1) unset
unfolding match_of
upper_bound = refl

-- The end of the outer group lands elsewhere.
outer_group :
    match_of extended_syntax (codes "(a(b))") (codes "ab")
    ≡ returns 0
        (some (at_offsets 0 2 ∷ record { rm_so = some 0; rm_eo = none } ∷ at_offsets 1 2 ∷ []))
unfolding match_of
outer_group = refl

-- The class of the letters has the lower-case ones only.
upper_alpha :
    match_of extended_syntax (codes "[[:alpha:]]") (codes "A")
    ≡ returns 1 (some (unset ∷ unset ∷ unset ∷ []))
unfolding match_of class_match
upper_alpha = refl

-- The complement of the word characters has every character.
not_word : match_of extended_syntax (codes "\\W") (codes "A") ≡ three (at_offsets 0 1) unset
unfolding match_of class_match
not_word = refl

-- The program of the pattern `a`.
abbrev letter : ℕ → Op → ℕ → Inst
letter ch op x = record { op = op; ch = ch; set = []; x = x; y = 0 }

abbrev letter_a : List Inst
letter_a =
    letter 0 Op.save 0 ∷ letter b'a' Op.char 0 ∷ letter 0 Op.save 1 ∷ letter 0 Op.match 0 ∷ []

SavesWithin-∷ :
    (i : Inst) (is : List Inst) (slots : ℕ)
    → i.x < slots
    → SavesWithin is slots
    → SavesWithin (i ∷ is) slots
SavesWithin-∷ i is slots h rest zero j at op = let e : i ≡ j = cc in rw (sym e) h
SavesWithin-∷ i is slots h rest (suc pc) j at op = rest pc j at op

letter_a-SavesWithin : SavesWithin letter_a 2
letter_a-SavesWithin =
    SavesWithin-∷ (letter 0 Op.save 0)
      (letter b'a' Op.char 0 ∷ letter 0 Op.save 1 ∷ letter 0 Op.match 0 ∷ []) 2 (omega arith)
      (SavesWithin-∷ (letter b'a' Op.char 0) (letter 0 Op.save 1 ∷ letter 0 Op.match 0 ∷ []) 2
        (omega arith)
        (SavesWithin-∷ (letter 0 Op.save 1) (letter 0 Op.match 0 ∷ []) 2 (omega arith)
          (SavesWithin-∷ (letter 0 Op.match 0) [] 2 (omega arith) (λ pc j at. cc))))

cleared-IsClean : (n g last : ℕ) → IsClean g last (replicate n 0)
cleared-IsClean zero g last k v at = cc
cleared-IsClean (suc n) g last zero v at = let e : 0 ≡ v = cc in inl (omega arith)
cleared-IsClean (suc n) g last (suc k) v at = cleared-IsClean n g last k v at

abbrev preg_a : Regex
preg_a = record { re_program = some letter_a; re_nsub = 0; re_cflags = basic }

upto_letter_a : upto_match letter_a ≡ some letter_a
unfolding upto_match
upto_letter_a = refl

regexec_lem_example :
    Reports letter_a
      (codes "xa")
      preg_a
      1
      (both_flags basic at_line)
      (some (unset ∷ []))
      (regexec preg_a (codes "xa") 1 (some (unset ∷ [])) at_line true (some (replicate 12 0)))
regexec_lem_example =
    regexec_lem preg_a letter_a letter_a (codes "xa") 1 (some (unset ∷ [])) at_line (replicate 12 0)
      refl upto_letter_a (omega arith) letter_a-SavesWithin refl (cleared-IsClean 12 0 3)

abbrev memory_a : Memory
memory_a = record { captures = none ∷ none ∷ []; generations = replicate 12 0 }

memory_a-Ready : Ready letter_a (codes "xa") 1 13 memory_a
memory_a-Ready = record {
  marks = refl;
  few = omega (arith, unmarked-le 1 (replicate 12 0));
  saves = letter_a-SavesWithin;
}

run_lem_example :
    Shows letter_a
      (codes "xa")
      (both_flags basic at_line)
      1
      0
      1
      memory_a
      (run letter_a (codes "xa") (both_flags basic at_line) 13 1 0 1 memory_a)
run_lem_example =
    run_lem letter_a (codes "xa") (both_flags basic at_line) 1 13 0 1 memory_a (omega arith)
      memory_a-Ready
