-- ===== src/Stdio/Format/Contract.antt =====
-- The text that `vsnprintf` puts out does not depend on the size of the buffer.
use lamp_userspace.Prelude.{
  ℕ, zero, suc, ◌-◌, ◌≤◌, ◌≡◌, ◌⊎◌, refl, ap, sym, ◌∙◌, Bool, true, false, List, [], ◌∷◌, ◌++◌,
  length, take, none, some, arith, inl, inr,
}
use lamp_userspace.Stdio.Output.{Out}
use lamp_userspace.Stdio.Output.Emit.{emit, emit-append}
use lamp_userspace.Stdio.Directive.{Arg}
use lamp_userspace.Stdio.Format.{
  Action, step, Printed, printed, bad_argument, out_of_fuel, print_loop, start, vsnprintf,
}
use lamp_userspace.Stdio.Output.Buffer.{emit_written, emit_silent, emit_count}
use lamp_userspace.Stdio.Format.Actions.{Acts, step-Acts}

-- The loop takes a wrong argument from every state, or puts out one text from every state.
abbrev pub Uniform : (Out → Printed) → Type 0
Uniform f =
    ((o : Out) → f o ≡ bad_argument) ⊎ ((s : List ℕ) × ((o : Out) → f o ≡ printed (emit s o)))

continue :
    (fuel : ℕ) (fmt : List ℕ) (r : Action)
    → Acts (length fmt) r
    → length fmt ≤ fuel
    → ((rest : List ℕ) (args : List Arg) → length rest ≤ fuel → Uniform (print_loop fuel rest args))
    → Uniform (λ o. elim r [
      | none ↦ bad_argument
      | some (f, (rest, args')) ↦ print_loop fuel rest args' (f o)
    ])
continue fuel fmt none acts few more = inl (λ o. refl)
continue fuel fmt (some (f, (rest, args))) (emitter, short) few more =
    elim (more rest args (omega (arith, short, few))) [
      | inl wrong ↦ inl (λ o. wrong (f o))
      | inr (s, text_lem) ↦ inr (
        emitter.output ++ s,
        λ o.
            text_lem (f o)
            ∙ ap printed (ap (emit s) (emitter.emits o) ∙ sym (emit-append emitter.output s o)),
      )
    ]

pub print_loop-Uniform :
    (fuel : ℕ) (fmt : List ℕ) (args : List Arg)
    → length fmt ≤ fuel
    → Uniform (print_loop fuel fmt args)
unfolding print_loop
print_loop-Uniform fuel [] args few = inr ([], λ o. refl)
print_loop-Uniform zero (c ∷ fmt) args few = absurd (omega (arith, few))
print_loop-Uniform (suc fuel) (c ∷ fmt) args few =
    continue fuel fmt (step c fmt args) (step-Acts c fmt args) (omega (arith, few))
      (λ rest args' short. print_loop-Uniform fuel rest args' short)

-- What a buffer of `size` bytes, or none, must hold of the text `s`, and what is returned.
abbrev pub Prints : List ℕ → Bool → ℕ → Printed → Type 0
Prints s true size (printed o) = (o.written ≡ take (size - 1) s) × (o.count ≡ length s)
Prints s false size (printed o) = (o.written ≡ []) × (o.count ≡ length s)
Prints s has_buffer size bad_argument = ⊥
Prints s has_buffer size out_of_fuel = ⊥

emitted :
    (s : List ℕ) (has_buffer : Bool) (size : ℕ) (r : Printed)
    → r ≡ printed (emit s (start has_buffer size))
    → Prints s has_buffer size r
emitted s true size r e =
    rw e (emit_written s [] size 0, emit_count s (start true size) ∙ omega arith)
emitted s false size r e =
    rw e (emit_silent s [] size 0, emit_count s (start false size) ∙ omega arith)

-- `vsnprintf` always ends. For a format and arguments, either it takes an argument that is not there for
-- every buffer; or there is one text such that every call returns its length, a buffer of `size` bytes
-- gets its first `size - 1` bytes, and without a buffer nothing is written.
pub vsnprintf_lem :
    (fmt : List ℕ) (args : List Arg)
    → ((has_buffer : Bool) (size : ℕ) → vsnprintf has_buffer size fmt args ≡ bad_argument)
      ⊎ ((s : List ℕ) × ((has_buffer : Bool) (size : ℕ)
            → Prints s has_buffer size (vsnprintf has_buffer size fmt args)))
unfolding vsnprintf
vsnprintf_lem fmt args = elim (print_loop-Uniform (length fmt) fmt args (omega arith)) [
  | inl wrong ↦ inl (λ has_buffer size. wrong (start has_buffer size))
  | inr (s, shown) ↦
      inr (s, λ has_buffer size. emitted s has_buffer size _ (shown (start has_buffer size)))
]
