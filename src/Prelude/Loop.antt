-- ===== src/Prelude/Loop.antt =====
-- The `while` loop of C on fuel. `none` says that the fuel ran out, so that a theorem which gives
-- `some` also says that the loop ends.
use Prim.Native.Nat.{ℕ, zero, suc, ◌<◌}
use mathlib.Core.Path.{◌≡◌, refl}
use mathlib.Core.Logic.{inl, inr}
use mathlib.Core.Bool.{Bool, true, false}
use mathlib.Core.Option.{Option, none, some}
use native.Mathlib.Omega.{arith}
use lamp_userspace.Prelude.Tests.{Bool-cases, if◌then◌else◌}

pub while {ℓ} : {S : Type ℓ} → ℕ → (S → Bool) → (S → S) → S → Option S
while zero test body s = none
while (suc fuel) test body s =
    let rest = while fuel test body (body s) in if test s then rest else some s

pub while_stop {ℓ} :
    {S : Type ℓ} (fuel : ℕ) (test : S → Bool) (body : S → S) (s : S)
    → test s ≡ false
    → while (suc fuel) test body s ≡ some s
unfolding while
while_stop fuel test body s stop = rw stop

pub while_step {ℓ} :
    {S : Type ℓ} (fuel : ℕ) (test : S → Bool) (body : S → S) (s : S)
    → test s ≡ true
    → while (suc fuel) test body s ≡ while fuel test body (body s)
unfolding while
while_step fuel test body s go = rw go

-- With an invariant and a count of rounds that goes down, less than the fuel, the loop ends by its
-- test and keeps the invariant.
module _ {ℓ κ} {S : Type ℓ} (continue : S → Bool) (next : S → S) (Holds : S → Type κ)
    (rounds : S → ℕ) where
  abbrev Goes : Type (ℓ ⊔ κ)
  Goes = (s : S) → continue s ≡ true → Holds s → Holds (next s) × (rounds (next s) < rounds s)

  pub while_total :
      Goes
      → (fuel : ℕ) (s : S) → Holds s
      → rounds s < fuel
      → (end : S) × (while fuel continue next s ≡ some end) × Holds end × (continue end ≡ false)
  unfolding while
  while_total goes zero s holds few = elim few [ ]
  while_total goes (suc fuel) s holds few = elim (Bool-cases (continue s)) [
    | inl on ↦
        let (holds', fewer) = goes s on holds in
        rw on (while_total goes fuel (next s) holds' (omega arith))
    | inr off ↦ rw off (s, refl, holds, off)
  ]
