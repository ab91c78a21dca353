-- ===== src/Stdio/Stream/Filling.antt =====
-- The loop of `fread` takes the bytes to come from their front.
use lamp_userspace.Prelude.{
  ℕ, zero, suc, ◌-◌, ◌≤◌, ◌≡◌, refl, ap, sym, ◌∙◌, List, [], ◌∷◌, ◌++◌, length, take, drop, Option,
  none, some, arith,
}
use lamp_userspace.Stdio.Stream.{
  File, Read, got, file_fd, set_eof, take_pushback, Filled, behind, fill_round, fill,
}
use lamp_userspace.Stdio.Stream.Contents.{
  IsSource, pushed, contents, nothing, one, Pushed-cases, pushed-set_eof, file_fd-set_eof,
  take-front, drop-front,
}

module _ {W : Type 0} (read : ℕ → ℕ → W → Read × W) (fd : ℕ) (remaining : W → List ℕ)
    (source : IsSource read fd remaining) where
  -- The loop delivered these bytes.
  pub record Fills (r : Filled read) (s rest : List ℕ) : Type 0 where
    pub stream : Option File
    pub after : W
    pub result : r ≡ some (s, (stream, after))
    pub left : contents remaining stream after ≡ rest
    pub same : file_fd stream ≡ fd

  Fills-same :
      (r r' : Filled read) (s s' rest rest' : List ℕ)
      → r ≡ r'
      → s ≡ s'
      → rest ≡ rest'
      → Fills r' s' rest'
      → Fills r s rest
  Fills-same r r' s s' rest rest' e f g h = record {
    stream = h.stream;
    after = h.after;
    result = e ∙ (h.result ∙ ap (λ t. some (t, (h.stream, h.after))) (sym f));
    left = h.left ∙ sym g;
    same = h.same;
  }

  Fills-behind :
      (r : Filled read) (t s rest : List ℕ) → Fills r s rest → Fills (behind read t r) (t ++ s) rest
  Fills-behind r t s rest h = record {
    stream = h.stream;
    after = h.after;
    result = ap (behind read t) h.result;
    left = h.left;
    same = h.same;
  }

  fill_next :
      (fuel need : ℕ) (stream : Option File) (w : W) (p : Option (ℕ × Option File)) (r : Read × W)
      → take_pushback stream ≡ p
      → read (file_fd stream) (suc need) w ≡ r
      → fill read (suc fuel) (suc need) stream w
        ≡ fill_round read need p stream r (fill read fuel) w
  unfolding fill
  fill_next fuel need stream w p r e f =
      ap
        (λ q. fill_round read need q stream (read (file_fd stream) (suc need) w) (fill read fuel) w)
        e
      ∙ ap (λ q. fill_round read need p stream q (fill read fuel) w) f

  fill_none :
      (fuel : ℕ) (stream : Option File) (w : W)
      → file_fd stream ≡ fd
      → Fills (fill read fuel 0 stream w) [] (contents remaining stream w)
  unfolding fill
  fill_none fuel stream w e = record {
    stream = stream;
    after = w;
    result = refl;
    left = refl;
    same = e;
  }

  -- What the loop does with less fuel and less to read.
  abbrev Continues : ℕ → Type 0
  Continues fuel =
      (need : ℕ) (stream : Option File) (w : W)
      → need ≤ fuel
      → file_fd stream ≡ fd
      → Fills (fill read fuel need stream w) (take need (contents remaining stream w))
          (drop need (contents remaining stream w))

  fill-pushed :
      (fuel need : ℕ) (stream stream' : Option File) (w : W) (c : ℕ)
      → Continues fuel
      → need ≤ fuel
      → file_fd stream ≡ fd
      → take_pushback stream ≡ some (c, stream')
      → pushed stream ≡ c ∷ []
      → pushed stream' ≡ []
      → file_fd stream' ≡ file_fd stream
      → Fills
          (fill read (suc fuel) (suc need) stream w)
          (take (suc need) (contents remaining stream w))
          (drop (suc need) (contents remaining stream w))
  fill-pushed fuel need stream stream' w c continues enough e t b b' same =
      let rest : contents remaining stream' w ≡ remaining w =
        ap (λ (q : List ℕ). q ++ remaining w) b' in
      Fills-same _ (behind read (c ∷ []) (fill read fuel need stream' w)) _
        (c ∷ take need (contents remaining stream' w)) _ (drop need (contents remaining stream' w))
        (fill_next fuel need stream w _ _ t refl)
        (ap (λ q. take (suc need) (q ++ remaining w)) b ∙ ap (λ q. c ∷ take need q) (sym rest))
        (ap (λ q. drop (suc need) (q ++ remaining w)) b ∙ ap (drop need) (sym rest))
        (Fills-behind _ (c ∷ []) _ _ (continues need stream' w enough (same ∙ e)))

  module _ (fuel need : ℕ) (stream : Option File) (w after : W) (e : file_fd stream ≡ fd)
      (t : take_pushback stream ≡ none) (b : pushed stream ≡ []) where
    fill_end :
        read (file_fd stream) (suc need) w ≡ (got [], after)
        → remaining w ≡ []
        → remaining w ≡ remaining after
        → Fills
            (fill read (suc fuel) (suc need) stream w)
            (take (suc need) (contents remaining stream w))
            (drop (suc need) (contents remaining stream w))
    fill_end r nothing_left same =
        let empty : contents remaining stream w ≡ [] =
          ap (λ q. q ++ remaining w) b ∙ nothing_left in
        record {
          stream = set_eof stream;
          after = after;
          result =
              fill_next fuel need stream w _ _ t r
              ∙ ap (λ q. some (q, (set_eof stream, after))) (sym (ap (take (suc need)) empty));
          left =
              ap (λ q. q ++ remaining after) (pushed-set_eof stream ∙ b)
              ∙ (sym same ∙ (nothing_left ∙ sym (ap (drop (suc need)) empty)));
          same = file_fd-set_eof stream ∙ e;
        }

    fill_piece :
        (c : ℕ) (s : List ℕ)
        → read (file_fd stream) (suc need) w ≡ (got (c ∷ s), after)
        → remaining w ≡ (c ∷ s) ++ remaining after
        → length (c ∷ s) ≤ suc need
        → Continues fuel
        → need ≤ fuel
        → Fills
            (fill read (suc fuel) (suc need) stream w)
            (take (suc need) (contents remaining stream w))
            (drop (suc need) (contents remaining stream w))
    fill_piece c s r front short continues enough =
        let whole : contents remaining stream w ≡ c ∷ (s ++ remaining after) =
          ap (λ (q : List ℕ). q ++ remaining w) b ∙ front in
        let rest : contents remaining stream after ≡ remaining after =
          ap (λ (q : List ℕ). q ++ remaining after) b in
        let fits : length s ≤ need = omega (arith, short) in
        Fills-same _ (behind read (c ∷ s) (fill read fuel (need - length s) stream after)) _
          ((c ∷ s) ++ take (need - length s) (contents remaining stream after)) _
          (drop (need - length s) (contents remaining stream after))
          (fill_next fuel need stream w _ _ t r)
          (ap (take (suc need)) whole
            ∙ ap (λ q. c ∷ q)
                (take-front s (remaining after) need fits
                  ∙ ap (λ q. s ++ take (need - length s) q) (sym rest)))
          (ap (drop (suc need)) whole
            ∙ (drop-front s (remaining after) need fits ∙ ap (drop (need - length s)) (sym rest)))
          (Fills-behind _ (c ∷ s) _ _
            (continues (need - length s) stream after (omega (arith, enough)) e))

  fill_read :
      (fuel need : ℕ) (stream : Option File) (w : W)
      → Continues fuel
      → need ≤ fuel
      → file_fd stream ≡ fd
      → take_pushback stream ≡ none
      → pushed stream ≡ []
      → (bytes : List ℕ) (after : W) → read (file_fd stream) (suc need) w ≡ (got bytes, after)
      → remaining w ≡ bytes ++ remaining after
      → length bytes ≤ suc need
      → (bytes ≡ [] → remaining w ≡ [])
      → Fills
          (fill read (suc fuel) (suc need) stream w)
          (take (suc need) (contents remaining stream w))
          (drop (suc need) (contents remaining stream w))
  fill_read fuel need stream w continues enough e t b [] after r front short end =
      fill_end fuel need stream w after e t b r (end refl) front
  fill_read fuel need stream w continues enough e t b (c ∷ s) after r front short end =
      fill_piece fuel need stream w after e t b c s r front short continues enough

  -- The loop puts the front of the contents remaining into the buffer and leaves the rest.
  pub fill_lem :
      (fuel need : ℕ) (stream : Option File) (w : W)
      → need ≤ fuel
      → file_fd stream ≡ fd
      → Fills
          (fill read fuel need stream w)
          (take need (contents remaining stream w))
          (drop need (contents remaining stream w))
  fill_lem fuel zero stream w enough e = fill_none fuel stream w e
  fill_lem zero (suc need) stream w enough e = elim enough [ ]
  fill_lem (suc fuel) (suc need) stream w enough e = elim (Pushed-cases stream) [
    | one c stream' t b b' same ↦
        fill-pushed fuel need stream stream' w c (fill_lem fuel) (omega (arith, enough)) e t b b'
          same
    | nothing t b ↦
        let p = source.piece (suc need) w (omega arith) in
        fill_read fuel need stream w (fill_lem fuel) (omega (arith, enough)) e t b p.bytes p.after
          (ap (λ n. read n (suc need) w) e ∙ p.result) p.front p.short p.end
  ]
