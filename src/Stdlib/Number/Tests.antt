-- ===== src/Stdlib/Number/Tests.antt =====
-- `strtoul` at concrete texts.
use lamp_userspace.Prelude.{◌≡◌, refl, [], ◌∷◌, none, some, arith}
use lamp_userspace.Prelude.Text.{codes}
use lamp_userspace.Stdlib.{einval}
use lamp_userspace.Ctype.{isspace}
use lamp_userspace.Stdlib.Number.{skip_spaces, digit_of, read_digits, strtoul}
use lamp_userspace.Stdlib.Number.Numeral.{strtoul_lem}

strtoul_lem_example :
    strtoul (some (codes " 4294967297;")) 10
    ≡ record { value = 1; end = some (codes ";"); error = none }
unfolding isspace digit_of
strtoul_lem_example =
    strtoul_lem 10 (codes " ") 4 (2 ∷ 9 ∷ 4 ∷ 9 ∷ 6 ∷ 7 ∷ 2 ∷ 9 ∷ 7 ∷ []) (codes ";") (omega arith)
      (omega arith) (λ e. omega (arith, e)) (refl, tt)
      (
        omega arith,
        (
          omega arith,
          (
            omega arith,
            (
              omega arith,
              (
                omega arith,
                (omega arith, (omega arith, (omega arith, (omega arith, (omega arith, tt))))),
              ),
            ),
          ),
        ),
      )
      refl

hex_run :
    strtoul (some (codes "0x1fz")) 0 ≡ record { value = 31; end = some (codes "z"); error = none }
unfolding strtoul skip_spaces digit_of read_digits isspace
hex_run = refl

no_digits :
    strtoul (some (codes " x")) 10
    ≡ record { value = 0; end = some (codes " x"); error = some einval }
unfolding strtoul skip_spaces digit_of read_digits isspace
no_digits = refl
