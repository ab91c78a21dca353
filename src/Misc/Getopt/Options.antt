-- ===== src/Misc/Getopt/Options.antt =====
-- What the options of a list of arguments are, argument by argument, with no index and no position.
use lamp_userspace.Prelude.{
  ℕ, Bool, true, false, u8, ◌==◌, if◌then◌else◌, List, [], ◌∷◌, ◌++◌, Option, none, some,
}

-- The result of a call, with the argument and the option character it leaves.
pub record Event : Type 0 where
  pub code : ℕ
  pub argument : Option (List ℕ)
  pub option : ℕ

abbrev pub event : ℕ → Option (List ℕ) → ℕ → Event
event c a o = record { code = c; argument = a; option = o }

-- The options in one argument, and one that waits for the next argument.
abbrev pub Letters : Type 0
Letters = List Event × Option ℕ

abbrev pub starts_with_colon : List ℕ → Bool
starts_with_colon [] = false
starts_with_colon (c ∷ s) = c == b':'

-- Whether a character stands in the text, and then whether a colon follows its first place. A zero byte,
-- which no argument holds, is found at the end.
abbrev pub declared : List ℕ → ℕ → Option Bool
declared [] c = if c == 0 then some false else none
declared (x ∷ s) c = if x == u8 c then some (starts_with_colon s) else declared s c

-- `none` for a character that is no option, and else whether the option takes an argument.
abbrev pub takes_argument : List ℕ → ℕ → Option Bool
takes_argument optstring c = if c == b':' then none else declared optstring c

-- The result for an option that lacks its argument.
abbrev pub lacking : List ℕ → ℕ
lacking optstring = if starts_with_colon optstring then b':' else b'?'

abbrev pub letter : Option Bool → ℕ → List ℕ → Letters → Letters
letter none c rest (events, waiting) = (event b'?' none c ∷ events, waiting)
letter (some false) c rest (events, waiting) = (event c none c ∷ events, waiting)
letter (some true) c [] later = ([], some c)
letter (some true) c (d ∷ s) later = (event c (some (d ∷ s)) c ∷ [], none)

abbrev pub letters : List ℕ → List ℕ → Letters
letters optstring [] = ([], none)
letters optstring (c ∷ rest) = letter (takes_argument optstring c) c rest (letters optstring rest)

pub data Shape : Type 0 where
  operand double_dash : Shape
  cluster : ℕ → List ℕ → Shape

abbrev pub behind_dash : ℕ → List ℕ → Shape
behind_dash d [] = if d == b'-' then double_dash else cluster d []
behind_dash d (e ∷ s) = cluster d (e ∷ s)

abbrev pub shape_of : List ℕ → Shape
shape_of [] = operand
shape_of (c ∷ []) = operand
shape_of (c ∷ d ∷ s) = if c == b'-' then behind_dash d s else operand

-- The options, and the arguments that are left.
abbrev pub Found : Type 0
Found = List Event × List (List ℕ)

-- What one argument's options and the rest make: `later` is found behind the argument, `much_later`
-- behind the next one.
abbrev pub continue : List ℕ → Letters → List (List ℕ) → Found → Found → Found
continue optstring (events, none) args later much_later = (events ++ later.0, later.1)
continue optstring (events, some c) [] later much_later =
    (events ++ (event (lacking optstring) none c ∷ []), [])
continue optstring (events, some c) (b ∷ args) later much_later =
    (events ++ (event c (some b) c ∷ much_later.0), much_later.1)

abbrev pub by_shape : List ℕ → Shape → List ℕ → List (List ℕ) → Found → Found → Found
by_shape optstring operand a args later much_later = ([], a ∷ args)
by_shape optstring double_dash a args later much_later = ([], args)
by_shape optstring (cluster d s) a args later much_later =
    continue optstring (letters optstring (d ∷ s)) args later much_later

abbrev pub options : List ℕ → List (List ℕ) → Found
options optstring [] = ([], [])
options optstring (a ∷ []) = by_shape optstring (shape_of a) a [] ([], []) ([], [])
options optstring (a ∷ b ∷ args) =
    let later = options optstring (b ∷ args) in
    let much_later = options optstring args in
    by_shape optstring (shape_of a) a (b ∷ args) later much_later
