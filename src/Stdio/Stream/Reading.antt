-- ===== src/Stdio/Stream/Reading.antt =====
-- What the reading functions deliver of a stream's contents.
use lamp_userspace.Prelude.{
  ℕ, ◌*◌, ◌/◌, ◌^◌, ◌≤◌, ◌<◌, ◌≡◌, ◌≢◌, refl, ap, sym, ◌∙◌, Bool, true, false, List, [], ◌∷◌, ◌++◌,
  length, take, drop, Option, none, some, u8, u32, arith, ==-false,
}
use lamp_userspace.Stdio.Stream.{
  File, Read, got, file_fd, take_pushback, one_byte, get_from, fgetc, ungetc, fill, counted, fread,
}
use lamp_userspace.Stdio.Stream.Contents.{IsSource, contents, two_or_more}
use lamp_userspace.Stdio.Stream.Filling.{fill_lem}

module _ {W : Type 0} (read : ℕ → ℕ → W → Read × W) (fd : ℕ) (remaining : W → List ℕ)
    (source : IsSource read fd remaining) where
  abbrev coming : Option File → W → List ℕ
  coming stream w = contents remaining stream w

  fread_some :
      (size nmemb total : ℕ) (stream : Option File) (w : W)
      → size ≢ 0
      → nmemb ≢ 0
      → u32 (size * nmemb) ≡ total
      → fread read size nmemb stream w ≡ counted read size (fill read total total stream w)
  unfolding fread
  fread_some size nmemb total stream w has_size has_items e =
      rw (==-false size 0 has_size, ==-false nmemb 0 has_items)
        (ap (λ (n : ℕ). counted read size (fill read n n stream w)) e)

  -- From a source that gives what remains piece by piece, `fread` of a number of bytes that a word holds
  -- returns: it stores the bytes to come, as many as are asked for or all of them, its result is how many
  -- whole items they are, and the rest is still to come.
  pub fread_lem :
      (size nmemb : ℕ) (stream : Option File) (w : W)
      → size ≢ 0
      → nmemb ≢ 0
      → size * nmemb < 2 ^ 32
      → file_fd stream ≡ fd
      → (stream' : Option File) × ((w' : W) × ((fread read size nmemb stream w
              ≡ some (
                length (take (size * nmemb) (coming stream w)) / size,
                (take (size * nmemb) (coming stream w), (stream', w')),
              ))
            × (coming stream' w' ≡ drop (size * nmemb) (coming stream w))))
  fread_lem size nmemb stream w has_size has_items small e =
      let filled =
        fill_lem read fd remaining source (size * nmemb) (size * nmemb) stream w (omega arith) e in
      (
        filled.stream,
        (
          filled.after,
          (
            fread_some size nmemb (size * nmemb) stream w has_size has_items (omega (arith, small))
                ∙ ap (counted read size) filled.result,
            filled.left,
          ),
        ),
      )

  fgetc_pushed :
      (stream stream' : Option File) (w : W) (c : ℕ)
      → take_pushback stream ≡ some (c, stream')
      → fgetc read stream w ≡ (some c, (stream', w))
  unfolding fgetc
  fgetc_pushed stream stream' w c e = ap (λ p. get_from read p stream w) e

  fgetc_read :
      (stream : Option File) (w : W) (r : Read × W)
      → take_pushback stream ≡ none
      → read (file_fd stream) 1 w ≡ r
      → fgetc read stream w ≡ one_byte read stream r
  unfolding fgetc
  fgetc_read stream w r e f = ap (λ p. get_from read p stream w) e ∙ ap (one_byte read stream) f

  -- A byte from the contents, or the end of the file.
  abbrev pub Gets : List ℕ → Option ℕ × (Option File × W) → Type 0
  Gets [] r =
      (f : File) × ((w : W) × ((r ≡ (none, (some f, w)))
          × ((f.eof ≡ true) × (coming (some f) w ≡ []))))
  Gets (c ∷ s) r =
      (f : File) × ((w : W) × ((r ≡ (some c, (some f, w)))
          × ((coming (some f) w ≡ s)
              × (c < 2 ^ 8
                  → (f' : File) × ((ungetc (some c) (some f) ≡ (some c, some f'))
                      × (coming (some f') w ≡ c ∷ s))))))

  -- A stream on the descriptor.
  abbrev pub file : Bool → Bool → Option ℕ → File
  file eof err p = record { fd = fd; eof = eof; err = err; pushback = p }

  ungetc_empty :
      (eof err : Bool) (w : W) (c : ℕ) (s : List ℕ)
      → remaining w ≡ s
      → c < 2 ^ 8
      → (f' : File) × ((ungetc (some c) (some (file eof err none)) ≡ (some c, some f'))
          × (coming (some f') w ≡ c ∷ s))
  unfolding ungetc
  ungetc_empty eof err w c s h small =
      let byte : u8 c ≡ c = omega (arith, small) in
      (
        file false err (some (u8 c)),
        (
          ap (λ (n : ℕ). (some n, some (file false err (some (u8 c))))) byte,
          ap (λ (n : ℕ). n ∷ remaining w) byte ∙ ap (λ t. c ∷ t) h,
        ),
      )

  Gets-piece :
      (eof err : Bool) (w after : W) (bytes : List ℕ)
      → remaining w ≡ bytes ++ remaining after
      → length bytes ≤ 1
      → (bytes ≡ [] → remaining w ≡ [])
      → Gets (remaining w) (one_byte read (some (file eof err none)) (got bytes, after))
  Gets-piece eof err w after [] front short end =
      rw (end refl) (file true err none, (after, (refl, (refl, sym front ∙ end refl))))
  Gets-piece eof err w after (c ∷ []) front short end = rw front (
    file eof err none,
    (after, (refl, (refl, ungetc_empty eof err after c (remaining after) refl))),
  )
  Gets-piece eof err w after (c ∷ d ∷ s) front short end = elim (two_or_more (length s) short) [ ]

  -- `fgetc` takes the first of the bytes to come; `ungetc` of this byte puts it back before the others.
  -- At their end `fgetc` gives EOF and sets the mark for it.
  pub fgetc_lem :
      (eof err : Bool) (pushback : Option ℕ) (w : W)
      → Gets (coming (some (file eof err pushback)) w) (fgetc read (some (file eof err pushback)) w)
  fgetc_lem eof err none w =
      let p = source.piece 1 w (omega arith) in
      rw (fgetc_read (some (file eof err none)) w (got p.bytes, p.after) refl p.result)
        (Gets-piece eof err w p.after p.bytes p.front p.short p.end)
  fgetc_lem eof err (some c) w =
      rw (fgetc_pushed (some (file eof err (some c))) (some (file eof err none)) w c refl)
        (file eof err none, (w, (refl, (refl, ungetc_empty eof err w c (remaining w) refl))))
