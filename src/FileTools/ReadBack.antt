-- ===== src/FileTools/ReadBack.antt =====
-- What was written is read back, with its line ends as they are read.
use crabclaw.Prelude.{
  ℕ, ◌≤◌, ◌≡◌, refl, sym, ap, ◌∙◌, false, Option, some, nat_eq, ltb, le_of_ltb, ltb_of_le, Bool,
  true, arith, elem, [], ◌∷◌, ◌==◌, if◌then◌else◌, ◌||◌,
}
use crabclaw.Prelude.Dict
use crabclaw.Prelude.Dict.{get-put_same}
use crabclaw.Prelude.Result.{ok, >>=-eq-ok}
use crabclaw.Prelude.Text.{Text, list_eq, starts_with}
use crabclaw.FileTools.{
  FilePath, file, Files, too_large, unsafe, size, max_size_read, max_size_write, parents, make_dirs,
  Tool, resolve_path, validate_extension, is_unsafe, written, write_text, read_file, write_file,
  universal,
}
use crabclaw.FileTools.Paths.{>>-eq-ok}
use crabclaw.FileTools.Frame.{write_over-put, written-some}

small_enough : (n : ℕ) → ltb max_size_write n ≡ false → ltb max_size_read n ≡ false
small_enough n h = below n (le_of_ltb max_size_write n h)
  where
    below : (n : ℕ) → n ≤ max_size_write → ltb max_size_read n ≡ false
    below n h = ltb_of_le max_size_read n (omega arith)

-- Any text without a carriage return, are read as they are.
pub universal_same : (s : Text) → elem b'\r' s ≡ false → universal s ≡ s
unfolding universal
universal_same [] h = refl
universal_same (c ∷ s) h = by_test (c == b'\r') h (universal_same s)
  where
    by_test :
        (b : Bool)
        → (b || elem b'\r' s) ≡ false
        → (elem b'\r' s ≡ false → universal s ≡ s)
        → (if b
            then (if starts_with (b'\n' ∷ []) s then universal s else b'\n' ∷ universal s)
            else c ∷ universal s)
          ≡ c ∷ s
    by_test true h ih = absurd (ground arith)
    by_test false h ih = ap (◌∷◌ c) (ih h)

module _ (lower : Text → Text) (resolve : Option FilePath → Text → Option FilePath)
    (is_dangerous : Text → Bool) where
  -- If a call of the tool that writes a file succeeds, the tool that reads a file, with the same
  -- path, returns what was written, with its line ends as read_text gives them: it is refused by
  -- none of the reader's own checks.
  pub write_file-read_file :
      (t : Tool) (path content : Text) (st : Files) {st' : Files}
      → write_file lower resolve is_dangerous t path content st ≡ ok st'
      → read_file lower resolve is_dangerous t path st' ≡ ok (universal content)
  unfolding write_file read_file
  write_file-read_file t path content st {st'} h =
      let (fits, h1) = >>-eq-ok (ltb max_size_write (size content)) too_large _ h in
      let (p, r, h2) = >>=-eq-ok (resolve_path lower resolve is_dangerous t path) _ h1 in
      let (_, v, h3) = >>=-eq-ok (validate_extension lower resolve is_dangerous p) _ h2 in
      let (_, h4) = >>-eq-ok (is_unsafe lower resolve is_dangerous content) unsafe _ h3 in
      let (st1, m, w) =
        >>=-eq-ok (written lower resolve is_dangerous (make_dirs (parents p) st)) _ h4 in
      let got : Dict.get p st' ≡ some (file content) =
        ap (Dict.get p) (
          sym (
            write_over-put (Dict.get p st1) p content st1
              (written-some lower resolve is_dangerous (write_text p content st1) w)))
        ∙ get-put_same p (file content) st1 in
      rw (r, got, v, small_enough (size content) fits) refl
