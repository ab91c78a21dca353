-- ===== src/Misc/Getopt.antt =====
-- lib/libc_misc.c, `getopt`. The variables `optarg`, `optind`, `optopt` and the position in the current
-- argument are a record. `optind` is not negative; a result of -1 is `none`.
pub mod Options
pub mod Kinds
pub mod Run
pub mod Found
pub mod Complete
use lamp_userspace.Prelude.{
  ℕ, zero, suc, ◌+◌, Bool, true, false, not, ◌&&◌, ◌||◌, ltb, leb, ◌==◌, if◌then◌else◌, List, [],
  ◌∷◌, get_elem?, Option, none, some,
}
use lamp_userspace.Strings.Text.{strchr}

pub record Getopt : Type 0 where
  pub optarg : Option (List ℕ)
  pub optind : ℕ
  pub optopt : ℕ
  pub position : Option (List ℕ)

abbrev pub reset : Getopt → Getopt
reset g =
    if g.optind == 0
    then record g { optind = 1; position = none; optarg = none }
    else record g { optarg = none }

-- The pointer `argv[i]`; what is behind the array reads as null.
abbrev pub argument_at : List (Option (List ℕ)) → ℕ → Option (List ℕ)
argument_at argv i = elim (get_elem? argv i) [ none ↦ none | some a ↦ a ]

-- The end of the options, or the next option with what stands behind it in the argument.
pub data Next : Type 0 where
  finished : Getopt → Next
  option_char : ℕ → List ℕ → Getopt → Next

-- An argument with the bytes `c`, `d` at its front.
abbrev pub open_dash : ℕ → ℕ → List ℕ → Getopt → Next
open_dash c d [] g =
    if not (c == b'-')
    then finished g
    else if d == b'-'
    then finished (record g { optind = g.optind + 1 })
    else option_char d [] g
open_dash c d (e ∷ s) g = if not (c == b'-') then finished g else option_char d (e ∷ s) g

abbrev pub open_argument : Option (List ℕ) → Getopt → Next
open_argument none g = finished g
open_argument (some []) g = finished g
open_argument (some (c ∷ [])) g = finished g
open_argument (some (c ∷ d ∷ s)) g = open_dash c d s g

abbrev pub next_argument : ℕ → List (Option (List ℕ)) → Getopt → Next
next_argument argc argv g =
    if leb argc g.optind then finished g else open_argument (argument_at argv g.optind) g

abbrev pub next_char : ℕ → List (Option (List ℕ)) → Option (List ℕ) → Getopt → Next
next_char argc argv none g = next_argument argc argv g
next_char argc argv (some []) g = next_argument argc argv g
next_char argc argv (some (c ∷ rest)) g = option_char c rest g

pub data Kind : Type 0 where
  unknown flag with_argument : Kind

abbrev pub spec_kind : List ℕ → Kind
spec_kind [] = flag
spec_kind (c ∷ []) = flag
spec_kind (c ∷ d ∷ s) = if d == b':' then with_argument else flag

abbrev pub found_kind : ℕ → Option (List ℕ) → Kind
found_kind c none = unknown
found_kind c (some spec) = if c == b':' then unknown else spec_kind spec

pub kind_of : List ℕ → ℕ → Kind
kind_of optstring c = found_kind c (strchr optstring c)

-- The position behind an option, when its argument ends there.
abbrev pub pass_end : List ℕ → Getopt → Getopt
pass_end [] g = record g { optind = g.optind + 1; position = some [] }
pass_end (c ∷ s) g = record g { position = some (c ∷ s) }

abbrev pub missing : List ℕ → ℕ
missing [] = b'?'
missing (c ∷ s) = if c == b':' then b':' else b'?'

abbrev pub take_argument :
    ℕ → List (Option (List ℕ)) → List ℕ → ℕ → List ℕ → Getopt → Option ℕ × Getopt
take_argument argc argv optstring c (d ∷ s) g =
    (some c, record g { optarg = some (d ∷ s); optind = g.optind + 1; position = none })
take_argument argc argv optstring c [] g =
    if ltb (g.optind + 1) argc
    then (
      some c,
      record g {
        optarg = argument_at argv (g.optind + 1);
        optind = g.optind + 1 + 1;
        position = none;
      },
    )
    else (some (missing optstring), record g { optind = g.optind + 1; position = some [] })

abbrev pub take_flag : ℕ → List ℕ → Getopt → Option ℕ × Getopt
take_flag c [] g = (some c, record g { optind = g.optind + 1; position = none })
take_flag c (d ∷ s) g = (some c, record g { position = some (d ∷ s) })

abbrev pub take_option :
    ℕ → List (Option (List ℕ)) → List ℕ → Kind → ℕ → List ℕ → Getopt → Option ℕ × Getopt
take_option argc argv optstring unknown c rest g = (some b'?', pass_end rest g)
take_option argc argv optstring flag c rest g = take_flag c rest g
take_option argc argv optstring with_argument c rest g = take_argument argc argv optstring c rest g

abbrev pub take_next : ℕ → List (Option (List ℕ)) → List ℕ → Next → Option ℕ × Getopt
take_next argc argv optstring (finished g) = (none, g)
take_next argc argv optstring (option_char c rest g) =
    take_option argc argv optstring (kind_of optstring c) c rest (record g { optopt = c })

-- The result and the variables after the call.
pub getopt : ℕ → List (Option (List ℕ)) → List ℕ → Getopt → Option ℕ × Getopt
getopt argc argv optstring g =
    let g' = reset g in take_next argc argv optstring (next_char argc argv g'.position g')
