-- ===== src/Stdio/Output/Emit.antt =====
-- Every output function appends a text that does not depend on the buffer.
use lamp_userspace.Prelude.{
  ℕ, zero, suc, ◌+◌, ◌-◌, ◌≡◌, refl, ap, sym, ◌∙◌, Bool, true, false, not, ◌&&◌, ◌==◌,
  if◌then◌else◌, List, [], ◌∷◌, ◌++◌, length, replicate, Bool-cases, inl, inr,
}
use lamp_userspace.Prelude.Int.{ℤ, is_below_zero, count_of}
use lamp_userspace.Stdio.Output.{
  Out, out_char, out_mem, out_repeat, out_padded, out_back, out_sign, out_uint_fmt, digits_shown,
}

-- The state after a text is put out.
abbrev pub emit : List ℕ → Out → Out
emit [] o = o
emit (c ∷ s) o = emit s (out_char c o)

pub emit-append : (s t : List ℕ) (o : Out) → emit (s ++ t) o ≡ emit t (emit s o)
emit-append [] t o = refl
emit-append (c ∷ s) t o = emit-append s t (out_char c o)

abbrev pub Emits : (Out → Out) → List ℕ → Type 0
Emits f s = (o : Out) → f o ≡ emit s o

pub Emits-then :
    (f g : Out → Out) (s t : List ℕ) → Emits f s → Emits g t → Emits (λ o. g (f o)) (s ++ t)
Emits-then f g s t hf hg o = hg (f o) ∙ (ap (emit t) (hf o) ∙ sym (emit-append s t o))

pub out_mem-Emits : (s : List ℕ) → Emits (out_mem s) s
unfolding out_mem
out_mem-Emits [] o = refl
out_mem-Emits (c ∷ s) o = out_mem-Emits s (out_char c o)

pub out_repeat-Emits : (c n : ℕ) → Emits (out_repeat c n) (replicate n c)
unfolding out_repeat
out_repeat-Emits c zero o = refl
out_repeat-Emits c (suc n) o = out_repeat-Emits c n (out_char c o)

abbrev pub reversed : List ℕ → List ℕ
reversed [] = []
reversed (d ∷ ds) = reversed ds ++ (d ∷ [])

pub out_back-Emits : (ds : List ℕ) → Emits (out_back ds) (reversed ds)
unfolding out_back
out_back-Emits [] o = refl
out_back-Emits (d ∷ ds) o =
    ap (out_char d) (out_back-Emits ds o) ∙ sym (emit-append (reversed ds) (d ∷ []) o)

abbrev pub sign_text : ℕ → List ℕ
sign_text sign = if sign == 0 then [] else sign ∷ []

pub out_sign-Emits : (sign : ℕ) → Emits (out_sign sign) (sign_text sign)
unfolding out_sign
out_sign-Emits sign o = elim (Bool-cases (sign == 0)) [ inl z ↦ rw z refl | inr n ↦ rw n refl ]

ruleset output_rules =
    (emit-append, out_back-Emits, out_repeat-Emits, out_mem-Emits, out_sign-Emits)

-- The padding that stands before or behind.
abbrev pub when : Bool → List ℕ → List ℕ
when true s = s
when false s = []

abbrev pub padded_text : List ℕ → ℕ → Bool → ℕ → List ℕ
padded_text s width left_adjust pad =
    (when (not left_adjust) (replicate (width - length s) pad) ++ s)
    ++ when left_adjust (replicate (width - length s) b' ')

pub out_padded-Emits :
    (s : List ℕ) (width : ℕ) (left_adjust : Bool) (pad : ℕ)
    → Emits (out_padded s width left_adjust pad) (padded_text s width left_adjust pad)
unfolding out_padded
out_padded-Emits s width true pad o = simp output_rules
out_padded-Emits s width false pad o = simp output_rules

module _ (v base sign : ℕ) (upper : Bool) (width : ℕ) (precision : ℤ) (prefix : List ℕ) where
  abbrev digits : List ℕ
  digits = digits_shown precision v base upper

  abbrev zeroes : ℕ
  zeroes = count_of precision - length digits

  abbrev pad_count : ℕ
  pad_count = width - ((if sign == 0 then 0 else 1) + length prefix + zeroes + length digits)

  -- The sign, the prefix, `more` zeroes, those of the precision and the digits.
  abbrev number_text : List ℕ → List ℕ
  number_text more =
      (((sign_text sign ++ prefix) ++ more) ++ replicate zeroes b'0') ++ reversed digits

  abbrev pub uint_text : Bool → Bool → List ℕ
  uint_text left_adjust zero_pad =
      if zero_pad && not left_adjust && is_below_zero precision
      then number_text (replicate pad_count b'0')
      else (when (not left_adjust) (replicate pad_count b' ') ++ number_text [])
        ++ when left_adjust (replicate pad_count b' ')

  pub out_uint_fmt-Emits :
      (left_adjust zero_pad : Bool)
      → Emits
          (out_uint_fmt v base sign upper width left_adjust zero_pad precision prefix)
          (uint_text left_adjust zero_pad)
  unfolding out_uint_fmt
  out_uint_fmt-Emits true true o = simp output_rules
  out_uint_fmt-Emits true false o = simp output_rules
  out_uint_fmt-Emits false false o = simp output_rules
  out_uint_fmt-Emits false true o = elim (Bool-cases (is_below_zero precision)) [
    | inl z ↦ rw z (simp output_rules)
    | inr z ↦ rw z (simp output_rules)
  ]

-- A function that puts out one text, whatever the state.
pub record IsEmitter (f : Out → Out) : Type 0 where
  pub output : List ℕ
  pub emits : Emits f output

pub out_char-IsEmitter : (c : ℕ) → IsEmitter (out_char c)
out_char-IsEmitter c = record { output = c ∷ []; emits = λ o. refl }

pub out_padded-IsEmitter :
    (s : List ℕ) (width : ℕ) (left_adjust : Bool) (pad : ℕ)
    → IsEmitter (out_padded s width left_adjust pad)
out_padded-IsEmitter s width left_adjust pad = record {
  output = padded_text s width left_adjust pad;
  emits = out_padded-Emits s width left_adjust pad;
}

pub out_uint_fmt-IsEmitter :
    (v base sign : ℕ) (upper : Bool) (width : ℕ) (left_adjust zero_pad : Bool) (precision : ℤ)
    (prefix : List ℕ)
    → IsEmitter (out_uint_fmt v base sign upper width left_adjust zero_pad precision prefix)
out_uint_fmt-IsEmitter v base sign upper width left_adjust zero_pad precision prefix = record {
  output = uint_text v base sign upper width precision prefix left_adjust zero_pad;
  emits = out_uint_fmt-Emits v base sign upper width precision prefix left_adjust zero_pad;
}
