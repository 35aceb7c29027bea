-- ===== src/Helpers.antt =====
-- crabclaw/utils/helpers.py: file names and the splitting of long messages.
pub mod Names
pub mod Split
use crabclaw.Prelude.{
  ℕ, suc, ◌+◌, Bool, true, false, ◌&&◌, not, List, [], ◌∷◌, ◌++◌, map, if◌then◌else◌, nat_eq, ◌==◌,
  length, elem, ltb, leb,
}
use crabclaw.Prelude.Text.{Text, strip}

-- `[<>:"/\\|?*]`
abbrev pub is_unsafe : ℕ → Bool
is_unsafe c = elem c (b'<' ∷ b'>' ∷ b':' ∷ b'"' ∷ b'/' ∷ b'\\' ∷ b'|' ∷ b'?' ∷ b'*' ∷ [])

abbrev pub sanitize : ℕ → ℕ
sanitize c = if is_unsafe c then b'_' else c

unfoldable pub safe_filename : Text → Text
unfolding strip
safe_filename name = strip (map sanitize name)

-- `s.split(sep)` for one character: the parts, of which there is always one.
unfoldable pub push_front : ℕ → List Text → List Text
push_front c [] = (c ∷ []) ∷ []
push_front c (p ∷ ps) = (c ∷ p) ∷ ps

unfoldable pub split : ℕ → Text → List Text
unfolding push_front
split sep [] = [] ∷ []
split sep (c ∷ s) = let rest = split sep s in if c == sep then [] ∷ rest else push_front c rest

-- `bool(s)`
abbrev pub nonempty : Text → Bool
nonempty [] = false
nonempty (c ∷ s) = true

abbrev pub Chunks : Type 0
Chunks = List Text × Text

module _ (max_length : ℕ) where
  -- the body of the loop over the words of a paragraph that is too long
  unfoldable pub add_word : Text → Chunks → Chunks
  add_word word (chunks, current) =
      if ltb max_length (length current + length word + 1)
      then (chunks ++ current ∷ [], word)
      else if nonempty current
      then (chunks, current ++ b' ' ∷ word)
      else (chunks, word)

  unfoldable pub add_words : List Text → Chunks → Chunks
  add_words [] s = s
  add_words (w ∷ ws) s = add_words ws (add_word w s)

  -- `if current_chunk: chunks.append(current_chunk); current_chunk = ""`
  unfoldable pub flush : Chunks → Chunks
  flush (chunks, current) =
      if nonempty current then (chunks ++ current ∷ [], []) else (chunks, current)

  -- the first test of the loop over the paragraphs
  unfoldable pub make_room : Text → Chunks → Chunks
  make_room paragraph (chunks, current) =
      if nonempty current && ltb max_length (length current + length paragraph + 1)
      then (chunks ++ current ∷ [], [])
      else (chunks, current)

  unfoldable pub join_paragraph : Text → Chunks → Chunks
  join_paragraph paragraph (chunks, current) =
      if nonempty current then (chunks, current ++ b'\n' ∷ paragraph) else (chunks, paragraph)

  unfoldable pub add_paragraph : Text → Chunks → Chunks
  unfolding add_words flush make_room join_paragraph
  add_paragraph paragraph s =
      let s' = make_room paragraph s in
      if ltb max_length (length paragraph)
      then add_words (split b' ' paragraph) (flush s')
      else join_paragraph paragraph s'

  unfoldable pub add_paragraphs : List Text → Chunks → Chunks
  unfolding add_paragraph
  add_paragraphs [] s = s
  add_paragraphs (p ∷ ps) s = add_paragraphs ps (add_paragraph p s)

-- `split_message(text, max_length)`
unfoldable pub split_message : Text → ℕ → List Text
unfolding add_paragraphs flush
split_message text max_length =
    if leb (length text) max_length
    then text ∷ []
    else (flush max_length (add_paragraphs max_length (split b'\n' text) ([], []))).0
