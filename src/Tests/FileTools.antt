-- ===== src/Tests/FileTools.antt =====
-- The file tools at concrete inputs.
use crabclaw.Prelude.{◌≡◌, refl, Bool, Option, none, some, [], ◌∷◌, ◌++◌, nat_eq, string_eq, elem}
use crabclaw.Prelude.Result.{ok, raise}
use crabclaw.Prelude.Text.{Text, codes, list_eq}
use crabclaw.Helpers.{split}
use crabclaw.FileTools.{
  FilePath, directory, file, Files, traversal, other_extension, ambiguous, Tool, resolve_path,
  read_file, write_file, edit_file, universal,
}
use crabclaw.FileTools.Frame.{IsKept, write_file-IsKept}
use crabclaw.FileTools.Edits.{IsEdit, edit_file-IsEdit}
use crabclaw.FileTools.ReadBack.{write_file-read_file}

abbrev lower : Text → Text
lower s = s

-- a path that starts with a slash is absolute
abbrev resolve : Option FilePath → Text → Option FilePath
resolve none s = some (split b'/' s)
resolve (some w) s = some (w ++ split b'/' s)

abbrev is_dangerous : Text → Bool
is_dangerous s = elem b'<' s

abbrev tool : Tool
tool = record {
  workspace = some (codes "work" ∷ []);
  allowed_dirs = some ((codes "work" ∷ []) ∷ []);
}

abbrev notes : FilePath
notes = codes "work" ∷ codes "a" ∷ codes "notes.md" ∷ []

abbrev files : Files
files = (notes, file (codes "one two")) ∷ []

abbrev edited : Files
edited = (notes, file (codes "one 2")) ∷ []

abbrev with_new : Files
with_new =
    (notes, file (codes "one two"))
    ∷ (codes "work" ∷ [], directory)
    ∷ (codes "work" ∷ codes "b" ∷ [], directory)
    ∷ (codes "work" ∷ codes "b" ∷ codes "x.txt" ∷ [], file (codes "hi"))
    ∷ []

wrote :
    write_file lower resolve is_dangerous tool (codes "b/x.txt") (codes "hi") files ≡ ok with_new
unfolding write_file split
wrote = refl

did_edit :
    edit_file lower resolve is_dangerous tool (codes "a/notes.md") (codes "two") (codes "2") files
    ≡ ok edited
unfolding edit_file split
did_edit = refl

-- A path that leaves the directory, and a file whose name begins with its only dot.
refused :
    (write_file lower resolve is_dangerous tool (codes "../x.txt") (codes "hi") files
      ≡ raise traversal)
    × (write_file lower resolve is_dangerous tool (codes ".env") (codes "hi") files
        ≡ raise other_extension)
    × (edit_file lower resolve is_dangerous tool (codes "a/notes.md") (codes "o") (codes "0") files
        ≡ raise (ambiguous 2))
unfolding write_file edit_file split
refused = (refl, refl, refl)

write_file-IsKept_example : IsKept lower tool files with_new notes
write_file-IsKept_example =
    write_file-IsKept lower resolve is_dangerous tool (codes "b/x.txt") (codes "hi") files wrote
      notes

edit_file-IsEdit_example :
    ((p : FilePath) × (resolve_path lower resolve is_dangerous tool (codes "a/notes.md") ≡ ok p)
      × IsEdit p (codes "two") (codes "2") files edited)
    × ((q : FilePath) → IsKept lower tool files edited q)
edit_file-IsEdit_example =
    edit_file-IsEdit lower resolve is_dangerous tool (codes "a/notes.md") (codes "two") (codes "2")
      files did_edit

abbrev lines : Text
lines = codes "a" ++ b'\r' ∷ b'\n' ∷ codes "b" ++ b'\r' ∷ codes "c"

abbrev with_lines : Files
with_lines =
    (notes, file (codes "one two"))
    ∷ (codes "work" ∷ [], directory)
    ∷ (codes "work" ∷ codes "x.txt" ∷ [], file lines)
    ∷ []

wrote_lines : write_file lower resolve is_dangerous tool (codes "x.txt") lines files ≡ ok with_lines
unfolding write_file split
wrote_lines = refl

lines_read : universal lines ≡ codes "a\nb\nc"
unfolding universal
lines_read = refl

write_file-read_file_example :
    read_file lower resolve is_dangerous tool (codes "x.txt") with_lines ≡ ok (universal lines)
write_file-read_file_example =
    write_file-read_file lower resolve is_dangerous tool (codes "x.txt") lines files wrote_lines
