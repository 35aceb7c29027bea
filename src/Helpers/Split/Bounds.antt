-- ===== src/Helpers/Split/Bounds.antt =====
-- The chunks of `split_message` fit, if each word does.
use crabclaw.Prelude.{
  ℕ, ◌+◌, ◌≤◌, ◌≡◌, refl, true, List, [], ◌∷◌, ◌++◌, arith, length, All, All-append, length-append,
  Bool-cases, inl, inr, ltb, leb,
}
use crabclaw.Prelude.Text.{Text}
use crabclaw.Helpers.{
  Chunks, nonempty, add_word, add_words, flush, make_room, join_paragraph, add_paragraph,
  add_paragraphs, split, split_message,
}

module _ (n : ℕ) where
  abbrev pub Fits : Text → Type 0
  Fits s = length s ≤ n

  -- The finished chunks and the current one fit.
  abbrev AreFit : Chunks → Type 0
  AreFit (chunks, current) = All Fits chunks × Fits current

  emit-AreFit :
      (chunks : List Text) (current : Text)
      → AreFit (chunks, current)
      → All Fits (chunks ++ current ∷ [])
  emit-AreFit chunks current h = All-append Fits chunks (current ∷ []) h.0 (h.1, tt)

  add_word-AreFit : (w : Text) (s : Chunks) → Fits w → AreFit s → AreFit (add_word n w s)
  unfolding add_word
  add_word-AreFit w (chunks, []) f h = ground (arith, emit-AreFit chunks [] h)
  add_word-AreFit w (chunks, c ∷ current) f h =
      ground (arith, emit-AreFit chunks (c ∷ current) h, length-append current (b' ' ∷ w))

  add_words-AreFit :
      (ws : List Text) (s : Chunks) → All Fits ws → AreFit s → AreFit (add_words n ws s)
  unfolding add_words
  add_words-AreFit [] s f h = h
  add_words-AreFit (w ∷ ws) s f h =
      add_words-AreFit ws (add_word n w s) f.1 (add_word-AreFit w s f.0 h)

  flush-AreFit : (s : Chunks) → AreFit s → AreFit (flush n s)
  unfolding flush
  flush-AreFit (chunks, []) h = h
  flush-AreFit (chunks, c ∷ current) h = (emit-AreFit chunks (c ∷ current) h, omega arith)

  -- After `make_room` the paragraph, if it fits at all, fits behind the current chunk.
  abbrev HasRoom : Text → Chunks → Type 0
  HasRoom p (chunks, current) = nonempty current ≡ true → length current + length p + 1 ≤ n

  make_room-AreFit :
      (p : Text) (s : Chunks) → AreFit s → AreFit (make_room n p s) × HasRoom p (make_room n p s)
  unfolding make_room
  make_room-AreFit p (chunks, []) h = (h, λ e. cc)
  make_room-AreFit p (chunks, c ∷ current) h = ground (arith, emit-AreFit chunks (c ∷ current) h)

  join_paragraph-AreFit :
      (p : Text) (s : Chunks) → Fits p → AreFit s → HasRoom p s → AreFit (join_paragraph n p s)
  unfolding join_paragraph
  join_paragraph-AreFit p (chunks, []) f h r = (h.0, f)
  join_paragraph-AreFit p (chunks, c ∷ current) f h r =
      (h.0, omega (arith, length-append current (b'\n' ∷ p), r refl))

  add_paragraph-AreFit :
      (p : Text) (s : Chunks) → All Fits (split b' ' p) → AreFit s → AreFit (add_paragraph n p s)
  unfolding add_paragraph
  add_paragraph-AreFit p s f h =
      let (kept, room) = make_room-AreFit p s h in
      elim (Bool-cases (ltb n (length p))) [
        | inl long ↦ rw long (add_words-AreFit _ _ f (flush-AreFit _ kept))
        | inr short ↦ rw short (join_paragraph-AreFit p _ (ground arith) kept room)
      ]

  add_paragraphs-AreFit :
      (ps : List Text) (s : Chunks)
      → All (λ p. All Fits (split b' ' p)) ps
      → AreFit s
      → AreFit (add_paragraphs n ps s)
  unfolding add_paragraphs
  add_paragraphs-AreFit [] s f h = h
  add_paragraphs-AreFit (p ∷ ps) s f h =
      add_paragraphs-AreFit ps (add_paragraph n p s) f.1 (add_paragraph-AreFit p s f.0 h)

  flush-Fits : (s : Chunks) → AreFit s → All Fits (flush n s).0
  flush-Fits s h = (flush-AreFit s h).0

  -- If no word between spaces and line ends of the text is longer than the limit, no chunk of
  -- split_message is longer than the limit.
  pub split_message-length :
      (text : Text)
      → All (λ p. All Fits (split b' ' p)) (split b'\n' text)
      → All Fits (split_message text n)
  unfolding split_message
  split_message-length text f = elim (Bool-cases (leb (length text) n)) [
    | inl short ↦ rw short (ground arith, tt)
    | inr long ↦
        rw long
          (flush-Fits _ (add_paragraphs-AreFit (split b'\n' text) ([], []) f (tt, omega arith)))
  ]
