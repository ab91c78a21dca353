-- ===== src/Stdio/Stream/Lines.antt =====
-- What `fgets` delivers.
use lamp_userspace.Prelude.{
  ℕ, zero, suc, ◌-◌, ◌≤◌, ◌≡◌, ◌≢◌, refl, ap, sym, ◌∙◌, ◌==◌, if◌then◌else◌, List, [], ◌∷◌, ◌++◌,
  length, Option, arith, ==-false, Bool-cases, inl, inr,
}
use lamp_userspace.Stdio.Stream.{
  File, Read, got, file_fd, line_round, read_line, line_result, fgets,
}
use lamp_userspace.Stdio.Stream.Contents.{IsSource, pushed, contents, two_or_more}

module _ {W : Type 0} (read : ℕ → ℕ → W → Read × W) (fd : ℕ) (remaining : W → List ℕ)
    (source : IsSource read fd remaining) where
  -- The first line, with its newline, of at most so many bytes, and the rest.
  abbrev pub first_line : ℕ → List ℕ → List ℕ × List ℕ
  first_line zero s = ([], s)
  first_line (suc n) [] = ([], [])
  first_line (suc n) (c ∷ s) =
      let (line, rest) = first_line n s in if c == b'\n' then (c ∷ [], s) else (c ∷ line, rest)

  -- The loop delivered this line.
  abbrev Reads : List ℕ × List ℕ → List ℕ × W → Type 0
  Reads (line, rest) r = (w : W) × ((r ≡ (line, w)) × (remaining w ≡ rest))

  read_line_none : (w : W) → Reads ([], remaining w) (read_line read 0 fd w)
  unfolding read_line
  read_line_none w = (w, (refl, refl))

  line_more :
      (room : ℕ) (w after : W) (c : ℕ)
      → read fd 1 w ≡ (got (c ∷ []), after)
      → Reads (first_line room (remaining after)) (read_line read room fd after)
      → Reads (first_line (suc room) (c ∷ remaining after)) (read_line read (suc room) fd w)
  unfolding read_line
  line_more room w after c r (w', (result, left)) = elim (Bool-cases (c == b'\n')) [
    | inl newline ↦
        rw newline
          (after, (ap (λ q. line_round read q (read_line read room fd)) r ∙ rw newline refl, refl))
    | inr other ↦ rw other (
      w',
      (
        ap (λ q. line_round read q (read_line read room fd)) r
            ∙ rw other (ap (λ (q : List ℕ × W). (c ∷ q.0, q.1)) result),
        left,
      ),
    )
  ]

  line_end :
      (room : ℕ) (w after : W)
      → read fd 1 w ≡ (got [], after)
      → remaining after ≡ []
      → Reads ([], []) (read_line read (suc room) fd w)
  unfolding read_line
  line_end room w after r left =
      (after, (ap (λ q. line_round read q (read_line read room fd)) r, left))

  line_piece :
      (room : ℕ) (w after : W) (bytes : List ℕ)
      → read fd 1 w ≡ (got bytes, after)
      → remaining w ≡ bytes ++ remaining after
      → length bytes ≤ 1
      → (bytes ≡ [] → remaining w ≡ [])
      → ((v : W) → Reads (first_line room (remaining v)) (read_line read room fd v))
      → Reads (first_line (suc room) (remaining w)) (read_line read (suc room) fd w)
  line_piece room w after [] r front short end continues =
      rw (end refl) (line_end room w after r (sym front ∙ end refl))
  line_piece room w after (c ∷ []) r front short end continues =
      rw front (line_more room w after c r (continues after))
  line_piece room w after (c ∷ d ∷ s) r front short end continues =
      elim (two_or_more (length s) short) [ ]

  read_line_lem :
      (room : ℕ) (w : W) → Reads (first_line room (remaining w)) (read_line read room fd w)
  read_line_lem zero w = read_line_none w
  read_line_lem (suc room) w =
      let p = source.piece 1 w (omega arith) in
      line_piece room w p.after p.bytes p.result p.front p.short p.end (read_line_lem room)

  -- `fgets` gives the first line of what the system has still to give, shorter than the buffer, or null when
  -- there is none. A byte that is pushed back stays in the stream and is no part of the line.
  pub fgets_lem :
      (size : ℕ) (stream : Option File) (w : W)
      → size ≢ 0
      → file_fd stream ≡ fd
      → (w' : W) × ((fgets read size stream w
            ≡ line_result read ((first_line (size - 1) (remaining w)).0, w'))
          × (contents remaining stream w'
              ≡ pushed stream ++ (first_line (size - 1) (remaining w)).1))
  unfolding fgets
  fgets_lem size stream w has_size e =
      let line = read_line_lem (size - 1) w in
      (
        line.0,
        (
          rw (==-false size 0 has_size) (
              ap (λ (n : ℕ). line_result read (read_line read (size - 1) n w)) e
              ∙ ap (line_result read) line.1.0),
          ap (λ t. pushed stream ++ t) line.1.1,
        ),
      )
