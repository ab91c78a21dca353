-- ===== src/Stdio/Output/Buffer.antt =====
-- What stays in the buffer of the text that is put out.
use lamp_userspace.Prelude.{
  ℕ, zero, suc, ◌+◌, ◌-◌, ◌≤◌, ◌<◌, ◌≡◌, refl, ap, sym, ◌∙◌, Bool, true, false, ◌&&◌, ltb, List, [],
  ◌∷◌, ◌++◌, length, take, arith, ltb-true, ltb-false, Bool-cases, inl, inr,
}
use mathlib.Core.List.{append-nil, append_assoc}
use lamp_userspace.Stdio.Output.{Out, out_char}
use lamp_userspace.Stdio.Output.Emit.{emit}

abbrev out : Bool → List ℕ → ℕ → ℕ → Out
out has_buffer written left count = record {
  has_buffer = has_buffer;
  written = written;
  left = left;
  count = count;
}

out_char_full :
    (c : ℕ) (w : List ℕ) (left count : ℕ)
    → left ≤ 1
    → out_char c (out true w left count) ≡ out true w left (count + 1)
unfolding out_char
out_char_full c w left count h = rw (ltb-false 1 left h) refl

out_char_room :
    (c : ℕ) (w : List ℕ) (left count : ℕ)
    → 1 < left
    → out_char c (out true w left count) ≡ out true (w ++ (c ∷ [])) (left - 1) (count + 1)
unfolding out_char
out_char_room c w left count h = rw (ltb-true 1 left h) refl

-- A buffer with no room but for the zero stays as it is.
emit_full :
    (s w : List ℕ) (left count : ℕ) → left ≤ 1 → (emit s (out true w left count)).written ≡ w
emit_full [] w left count h = refl
emit_full (c ∷ s) w left count h =
    ap (λ (o : Out). (emit s o).written) (out_char_full c w left count h)
    ∙ emit_full s w left (count + 1) h

emit_room :
    (s w : List ℕ) (room count : ℕ)
    → (emit s (out true w (room + 1) count)).written ≡ w ++ take room s
emit_room [] w zero count = sym (append-nil w)
emit_room [] w (suc room) count = sym (append-nil w)
emit_room (c ∷ s) w zero count = emit_full (c ∷ s) w 1 count (omega arith) ∙ sym (append-nil w)
emit_room (c ∷ s) w (suc room) count =
    let one_less : suc room + 1 - 1 ≡ room + 1 = omega arith in
    ap (λ (o : Out). (emit s o).written)
      (out_char_room c w (suc room + 1) count (omega arith)
        ∙ ap (λ (n : ℕ). out true (w ++ (c ∷ [])) n (count + 1)) one_less)
    ∙ (emit_room s (w ++ (c ∷ [])) room (count + 1) ∙ simp append_assoc)

pub emit_written :
    (s w : List ℕ) (left count : ℕ)
    → (emit s (out true w left count)).written ≡ w ++ take (left - 1) s
emit_written s w zero count = emit_full s w 0 count (omega arith) ∙ sym (append-nil w)
emit_written s w (suc left) count =
    ap (λ (n : ℕ). (emit s (out true w n count)).written) (omega arith)
    ∙ (emit_room s w left count ∙ ap (λ (n : ℕ). w ++ take n s) (omega arith))

pub emit_silent : (s w : List ℕ) (left count : ℕ) → (emit s (out false w left count)).written ≡ w
unfolding out_char
emit_silent [] w left count = refl
emit_silent (c ∷ s) w left count = emit_silent s w left (count + 1)

out_char_count : (c : ℕ) (o : Out) → (out_char c o).count ≡ o.count + 1
unfolding out_char
out_char_count c o = elim (Bool-cases (o.has_buffer && ltb 1 o.left)) [
  | inl y ↦ rw y refl
  | inr n ↦ rw n refl
]

pub emit_count : (s : List ℕ) (o : Out) → (emit s o).count ≡ o.count + length s
emit_count [] o = omega arith
emit_count (c ∷ s) o = omega (arith, emit_count s (out_char c o), out_char_count c o)
