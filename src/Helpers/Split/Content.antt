-- ===== src/Helpers/Split/Content.antt =====
-- The chunks of `split_message` hold the text, up to spaces and line ends.
use mathlib.Core.Path.{ap₂}
use crabclaw.Prelude.{
  ℕ, ◌≡◌, refl, sym, ap, ◌∙◌, true, not, ◌||◌, List, [], ◌∷◌, ◌++◌, arith, length, keep,
  keep-append, append-nil, append_assoc, Bool-cases, inl, inr, ltb, leb, nat_eq, ◌==◌,
}
use crabclaw.Prelude.Text.{Text}
use crabclaw.Helpers.{
  Chunks, add_word, add_words, flush, make_room, join_paragraph, add_paragraph, add_paragraphs,
  split, push_front, split_message,
}

-- The characters other than the space and the line end.
pub visible : Text → Text
visible = keep (λ c. not (c == b' ' || c == b'\n'))

-- The chunks, one behind the other.
abbrev pub joined : List Text → Text
joined [] = []
joined (p ∷ ps) = p ++ joined ps

abbrev view : Chunks → Text
view (chunks, current) = visible (joined chunks) ++ visible current

joined-append : (xs ys : List Text) → joined (xs ++ ys) ≡ joined xs ++ joined ys
joined-append [] ys = refl
joined-append (x ∷ xs) ys =
    ap (◌++◌ x) (joined-append xs ys) ∙ sym (append_assoc x (joined xs) (joined ys))

visible-append : (xs ys : Text) → visible (xs ++ ys) ≡ visible xs ++ visible ys
unfolding visible
visible-append = keep-append (λ c. not (c == b' ' || c == b'\n'))

visible-emit :
    (chunks : List Text) (p : Text)
    → visible (joined (chunks ++ p ∷ [])) ≡ visible (joined chunks) ++ visible p
visible-emit chunks p =
    ap visible (joined-append chunks (p ∷ []) ∙ ap (λ q. joined chunks ++ q) (append-nil p))
    ∙ visible-append (joined chunks) p

joined-push_front : (c : ℕ) (ps : List Text) → joined (push_front c ps) ≡ c ∷ joined ps
unfolding push_front
joined-push_front c [] = refl
joined-push_front c (p ∷ ps) = refl

-- Splitting at an invisible character loses nothing visible.
visible-split :
    (sep : ℕ) (s : Text)
    → (sep == b' ' || sep == b'\n') ≡ true
    → visible (joined (split sep s)) ≡ visible s
unfolding split visible
visible-split sep [] h = refl
visible-split sep (c ∷ s) h = elim (Bool-cases (c == sep)) [
  | inl cut ↦ rw cut (visible-split sep s h ∙ ground arith)
  | inr other ↦
      rw (other, joined-push_front c (split sep s)) (ground (arith, visible-split sep s h))
]

-- A separator is invisible.
visible-sep :
    (sep : ℕ) (s : Text) → (sep == b' ' || sep == b'\n') ≡ true → visible (sep ∷ s) ≡ visible s
unfolding visible
visible-sep sep s h = rw h

-- Closing the current chunk and beginning the next with `w`.
view-emit :
    (chunks : List Text) (p w : Text) → view (chunks ++ p ∷ [], w) ≡ view (chunks, p) ++ visible w
view-emit chunks p w = ap (λ v. v ++ visible w) (visible-emit chunks p)

-- Adding `w` behind a separator.
view-extend :
    (chunks : List Text) (p : Text) (sep : ℕ) (w : Text)
    → (sep == b' ' || sep == b'\n') ≡ true
    → view (chunks, p ++ sep ∷ w) ≡ view (chunks, p) ++ visible w
view-extend chunks p sep w h =
    ap (λ v. visible (joined chunks) ++ v)
      (visible-append p (sep ∷ w) ∙ ap (λ v. visible p ++ v) (visible-sep sep w h))
    ∙ sym (append_assoc (visible (joined chunks)) (visible p) (visible w))

view-first : (chunks : List Text) (w : Text) → view (chunks, w) ≡ view (chunks, []) ++ visible w
unfolding visible
view-first chunks w = ap (λ v. v ++ visible w) (sym (append-nil (visible (joined chunks))))

view-start : (v : Text) → view ([], []) ++ v ≡ v
unfolding visible
view-start v = refl

module _ (n : ℕ) where
  view-add_word : (w : Text) (s : Chunks) → view (add_word n w s) ≡ view s ++ visible w
  unfolding add_word
  view-add_word w (chunks, []) = ground (arith, view-emit chunks [] w, view-first chunks w)
  view-add_word w (chunks, c ∷ current) =
      ground (arith, view-emit chunks (c ∷ current) w, view-extend chunks (c ∷ current) b' ' w refl)

  view-add_words :
      (ws : List Text) (s : Chunks) → view (add_words n ws s) ≡ view s ++ visible (joined ws)
  unfolding add_words visible
  view-add_words [] s = sym (append-nil (view s))
  view-add_words (w ∷ ws) s =
      view-add_words ws (add_word n w s)
      ∙ ap (λ v. v ++ visible (joined ws)) (view-add_word w s)
      ∙ append_assoc (view s) (visible w) (visible (joined ws))
      ∙ ap (λ v. view s ++ v) (sym (visible-append w (joined ws)))

  view-flush : (s : Chunks) → view (flush n s) ≡ view s
  unfolding flush
  view-flush (chunks, []) = refl
  view-flush (chunks, c ∷ current) =
      view-emit chunks (c ∷ current) []
      ∙ (unfold visible in append-nil (view (chunks, c ∷ current)))

  view-make_room : (p : Text) (s : Chunks) → view (make_room n p s) ≡ view s
  unfolding make_room
  view-make_room p (chunks, []) = refl
  view-make_room p (chunks, c ∷ current) =
      ground (arith, view-flush (chunks, c ∷ current), flush_nonempty)
    where
      flush_nonempty : flush n (chunks, c ∷ current) ≡ (chunks ++ (c ∷ current) ∷ [], [])
      flush_nonempty = unfold flush in refl

  view-join_paragraph : (p : Text) (s : Chunks) → view (join_paragraph n p s) ≡ view s ++ visible p
  unfolding join_paragraph
  view-join_paragraph p (chunks, []) = view-first chunks p
  view-join_paragraph p (chunks, c ∷ current) = view-extend chunks (c ∷ current) b'\n' p refl

  view-add_paragraph : (p : Text) (s : Chunks) → view (add_paragraph n p s) ≡ view s ++ visible p
  unfolding add_paragraph
  view-add_paragraph p s = elim (Bool-cases (ltb n (length p))) [
    | inl long ↦ rw long (
        view-add_words (split b' ' p) (flush n (make_room n p s))
        ∙ ap₂ ◌++◌ (view-flush (make_room n p s) ∙ view-make_room p s) (visible-split b' ' p refl))
    | inr short ↦
        rw short
          (view-join_paragraph p (make_room n p s) ∙ ap (λ v. v ++ visible p) (view-make_room p s))
  ]

  view-add_paragraphs :
      (ps : List Text) (s : Chunks) → view (add_paragraphs n ps s) ≡ view s ++ visible (joined ps)
  unfolding add_paragraphs visible
  view-add_paragraphs [] s = sym (append-nil (view s))
  view-add_paragraphs (p ∷ ps) s =
      view-add_paragraphs ps (add_paragraph n p s)
      ∙ ap (λ v. v ++ visible (joined ps)) (view-add_paragraph p s)
      ∙ append_assoc (view s) (visible p) (visible (joined ps))
      ∙ ap (λ v. view s ++ v) (sym (visible-append p (joined ps)))

  chunks-flush : (s : Chunks) → visible (joined (flush n s).0) ≡ view s
  unfolding flush
  chunks-flush (chunks, []) = unfold visible in sym (append-nil (visible (joined chunks)))
  chunks-flush (chunks, c ∷ current) = visible-emit chunks (c ∷ current)

  -- The chunks of split_message, one behind the other, have the characters of the text other than
  -- space and line end, in order.
  pub split_message-visible : (text : Text) → visible (joined (split_message text n)) ≡ visible text
  unfolding split_message
  split_message-visible text = elim (Bool-cases (leb (length text) n)) [
    | inl short ↦ rw short (ap visible (append-nil text))
    | inr long ↦ rw long (
        chunks-flush (add_paragraphs n (split b'\n' text) ([], []))
        ∙ view-add_paragraphs (split b'\n' text) ([], [])
        ∙ view-start (visible (joined (split b'\n' text)))
        ∙ visible-split b'\n' text refl)
  ]
