-- ===== src/FileTools.antt =====
-- crabclaw/agent/tools/filesystem.py: which paths the file tools accept, and what they do to files.
-- `lower` stands for `str.lower`, `resolve` for the expansion and resolution of a path against the
-- workspace, which may raise, and `is_dangerous` for the search for dangerous patterns. A path is
-- the list of its components from the root. The directories of a tool are resolved ones. The files
-- after a call that raises are left out: it has made directories at most.
pub mod Paths
pub mod Edits
pub mod Frame
pub mod ReadBack
unfoldable pub use crabclaw.Prelude.Text.{occurs}
use crabclaw.Prelude.{
  ℕ, zero, suc, ◌+◌, ◌-◌, ◌*◌, String, Bool, true, false, not, ◌&&◌, ◌||◌, Option, none, some, List,
  [], ◌∷◌, ◌++◌, map, if◌then◌else◌, nat_eq, pair_eq, ◌==◌, any, elem, ltb, leb, length, drop,
}
use crabclaw.Prelude.Dict
use crabclaw.Prelude.Dict.{Dict}
use crabclaw.Prelude.Result.{Result, ok, raise, ◌>>=◌, ◌>>◌, raise_if}
use crabclaw.Prelude.Text.{Text, codes, list_eq, starts_with}

abbrev pub FilePath : Type 0
FilePath = List Text

pub data Entry : Type 0 where
  directory : Entry
  file : Text → Entry
  -- a file that is no text, of this size
  binary : ℕ → Entry

abbrev pub Files : Type 0
Files = Dict FilePath Entry

-- why a call ends with an error
pub data Refusal : Type 0 where
  too_long null_byte traversal encoded_traversal unresolvable outside name_too_long : Refusal
  blocked_extension other_extension too_large unsafe : Refusal
  not_found not_a_file no_match failed : Refusal
  ambiguous : ℕ → Refusal

-- The bytes of a text in UTF-8.
abbrev pub bytes_of : ℕ → ℕ
bytes_of c = if ltb c 0x80 then 1 else if ltb c 0x800 then 2 else if ltb c 0x10000 then 3 else 4

unfoldable pub size : Text → ℕ
size [] = 0
size (c ∷ s) = bytes_of c + size s

-- `t.endswith(s)`
unfoldable pub ends_with : Text → Text → Bool
ends_with s [] = s == []
ends_with s (c ∷ t) = s == c ∷ t || ends_with s t

abbrev pub slashed : ℕ → ℕ
slashed c = if c == b'\\' then b'/' else c

unfoldable pub is_traversal : Text → Bool
unfolding occurs ends_with
is_traversal path =
    let normalized = map slashed path in
    occurs (codes "/../") normalized
    || starts_with (codes "../") normalized
    || ends_with (codes "/..") normalized

-- `path.relative_to(directory)` succeeds
abbrev pub is_under : FilePath → FilePath → Bool
is_under path [] = true
is_under [] (d ∷ ds) = false
is_under (c ∷ path) (d ∷ ds) = c == d && is_under path ds

-- `path.name`
abbrev pub name_of : FilePath → Text
name_of [] = []
name_of (c ∷ []) = c
name_of (c ∷ d ∷ path) = name_of (d ∷ path)

abbrev pub last_dot_cons : ℕ → Text → Option (Text × Text) → Option (Text × Text)
last_dot_cons c s none = if c == b'.' then some ([], c ∷ s) else none
last_dot_cons c s (some (before, rest)) = some (c ∷ before, rest)

-- a name before and from its last dot
unfoldable pub last_dot : Text → Option (Text × Text)
last_dot [] = none
last_dot (c ∷ s) = last_dot_cons c s (last_dot s)

abbrev pub suffix_from : Option (Text × Text) → Text
suffix_from (some (b ∷ before, d ∷ e ∷ rest)) = d ∷ e ∷ rest
suffix_from _ = []

-- `path.suffix`: a dot that begins or ends the name begins no suffix
unfoldable pub suffix : FilePath → Text
unfolding last_dot
suffix path = suffix_from (last_dot (name_of path))

-- `ALLOWED_EXTENSIONS`
abbrev pub allowed_extensions : List Text
allowed_extensions = map codes (
    ".txt" ∷ ".md" ∷ ".json" ∷ ".yaml" ∷ ".yml" ∷ ".toml" ∷ ".ini" ∷ ".cfg" ∷ ".py" ∷ ".js" ∷ ".ts"
    ∷ ".jsx" ∷ ".tsx" ∷ ".html" ∷ ".css" ∷ ".scss" ∷ ".sh" ∷ ".bash" ∷ ".zsh" ∷ ".bat" ∷ ".ps1"
    ∷ ".sql" ∷ ".csv" ∷ ".xml" ∷ ".log" ∷ ".env" ∷ ".gitignore" ∷ ".dockerignore" ∷ ".rst" ∷ ".adoc"
    ∷ [])

-- `BLOCKED_EXTENSIONS`
abbrev pub blocked_extensions : List Text
blocked_extensions = map codes (
    ".exe" ∷ ".dll" ∷ ".so" ∷ ".dylib" ∷ ".bin" ∷ ".bat" ∷ ".cmd" ∷ ".com" ∷ ".msi" ∷ ".scr"
    ∷ ".pif" ∷ ".jar" ∷ ".class" ∷ ".war" ∷ ".ear" ∷ ".vbs" ∷ ".js" ∷ ".jse" ∷ ".wsf" ∷ ".wsh"
    ∷ ".reg" ∷ ".msc" ∷ ".cpl" ∷ ".gadget" ∷ ".application" ∷ ".zip" ∷ ".tar" ∷ ".gz" ∷ ".bz2"
    ∷ ".7z" ∷ ".rar" ∷ ".dat" ∷ ".db" ∷ ".sqlite" ∷ ".sqlite3" ∷ [])

abbrev pub max_size_read : ℕ
max_size_read = 10 * 1024 * 1024

abbrev pub max_size_write : ℕ
max_size_write = 5 * 1024 * 1024

abbrev pub outside_all : Option (List FilePath) → FilePath → Bool
outside_all none path = false
outside_all (some dirs) path = not (any (is_under path) dirs)

abbrev pub resolved : Option FilePath → Result Refusal FilePath
resolved none = raise unresolvable
resolved (some path) = ok path

-- `_validate_size`: what is at the path is too large to be read
abbrev pub is_too_large : Option Entry → Bool
is_too_large (some (file s)) = ltb max_size_read (size s)
is_too_large (some (binary n)) = ltb max_size_read n
is_too_large _ = false

-- `file_path.exists()`, `file_path.is_file()`
abbrev pub refuse_missing : Option Entry → Result Refusal (Unit {0})
refuse_missing none = raise not_found
refuse_missing (some directory) = raise not_a_file
refuse_missing (some e) = ok tt

-- `read_text`: each carriage return, with a line feed after it if there is one, is read as one
-- line feed
unfoldable pub universal : Text → Text
universal [] = []
universal (c ∷ s) =
    let rest = universal s in
    if c == b'\r' then (if starts_with (b'\n' ∷ []) s then rest else b'\n' ∷ rest) else c ∷ rest

abbrev pub text_in : Option Entry → Result Refusal Text
text_in (some (file s)) = ok (universal s)
text_in _ = raise failed

-- the directories that hold the path, from the root on
abbrev pub parents : FilePath → List FilePath
parents [] = []
parents (c ∷ []) = []
parents (c ∷ d ∷ path) = (c ∷ []) ∷ map (◌∷◌ c) (parents (d ∷ path))

abbrev pub make_dir : Option Entry → FilePath → Files → Option Files
make_dir none d st = some (Dict.put d directory st)
make_dir (some directory) d st = some st
make_dir (some e) d st = none

abbrev pub and_then : Option Files → (Files → Option Files) → Option Files
and_then none f = none
and_then (some st) f = f st

-- `file_path.parent.mkdir(parents=True, exist_ok=True)`
unfoldable pub make_dirs : List FilePath → Files → Option Files
unfolding Dict.get Dict.put
make_dirs [] st = some st
make_dirs (d ∷ ds) st = and_then (make_dir (Dict.get d st) d st) (make_dirs ds)

abbrev pub write_over : Option Entry → FilePath → Text → Files → Option Files
write_over (some directory) path content st = none
write_over e path content st = some (Dict.put path (file content) st)

-- `file_path.write_text(content)`
abbrev pub write_text : FilePath → Text → Files → Option Files
write_text path content st = write_over (Dict.get path st) path content st

-- `content.count(old)` for a text that is not empty, after `skip` characters
unfoldable pub count_from : Text → ℕ → Text → ℕ
count_from old skip [] = 0
count_from old (suc skip) (c ∷ s) = count_from old skip s
count_from old zero (c ∷ s) =
    let here = starts_with old (c ∷ s) in
    (if here then 1 else 0) + count_from old (if here then length old - 1 else 0) s

-- `content.count(old)`
unfoldable pub count : Text → Text → ℕ
unfolding count_from
count [] s = suc (length s)
count (c ∷ old) s = count_from (c ∷ old) 0 s

-- `content.replace(old, new, 1)`
unfoldable pub replace_first : Text → Text → Text → Text
replace_first old new [] = if starts_with old [] then new else []
replace_first old new (c ∷ s) =
    let rest = replace_first old new s in
    if starts_with old (c ∷ s) then new ++ drop (length old) (c ∷ s) else c ∷ rest

-- a file tool: the workspace and the directory that it may use, with the extra ones
pub record Tool : Type 0 where
  pub workspace : Option FilePath
  pub allowed_dirs : Option (List FilePath)

module _ (lower : Text → Text) (resolve : Option FilePath → Text → Option FilePath)
    (is_dangerous : Text → Bool) where
  -- `_resolve_path`
  unfoldable pub resolve_path : Tool → Text → Result Refusal FilePath
  unfolding is_traversal occurs
  resolve_path t path = do
    raise_if (ltb 4096 (length path)) too_long
    raise_if (elem 0 path) null_byte
    raise_if (is_traversal path) traversal
    raise_if (occurs (codes "%2e%2e") (lower path) || occurs (codes "..%2f") (lower path))
        encoded_traversal
    p ← resolved (resolve t.workspace path)
    raise_if (outside_all t.allowed_dirs p) outside
    raise_if (ltb 255 (length (name_of p))) name_too_long
    ok p

  -- `_validate_extension`
  unfoldable pub validate_extension : FilePath → Result Refusal (Unit {0})
  unfolding suffix
  validate_extension path = do
    raise_if (elem (lower (suffix path)) blocked_extensions) blocked_extension
    raise_if (not (elem (lower (suffix path)) allowed_extensions)) other_extension

  -- `_check_content_safety`
  abbrev pub is_unsafe : Text → Bool
  is_unsafe [] = false
  is_unsafe (c ∷ s) = is_dangerous (c ∷ s)

  abbrev pub written : Option Files → Result Refusal Files
  written none = raise failed
  written (some st) = ok st

  -- `ReadFileTool.execute`
  unfoldable pub read_file : Tool → Text → Files → Result Refusal Text
  unfolding resolve_path validate_extension size universal Dict.get
  read_file t path st = do
    p ← resolve_path t path
    refuse_missing (Dict.get p st)
    validate_extension p
    raise_if (is_too_large (Dict.get p st)) too_large
    text_in (Dict.get p st)

  -- `WriteFileTool.execute`: the files after it
  unfoldable pub write_file : Tool → Text → Text → Files → Result Refusal Files
  unfolding resolve_path validate_extension size make_dirs Dict.get Dict.put
  write_file t path content st = do
    raise_if (ltb max_size_write (size content)) too_large
    p ← resolve_path t path
    validate_extension p
    raise_if (is_unsafe content) unsafe
    st' ← written (make_dirs (parents p) st)
    written (write_text p content st')

  -- `EditFileTool.execute`: the files after it
  unfoldable pub edit_file : Tool → Text → Text → Text → Files → Result Refusal Files
  unfolding resolve_path validate_extension size occurs universal count replace_first Dict.get
      Dict.put
  edit_file t path old new st = do
    p ← resolve_path t path
    refuse_missing (Dict.get p st)
    validate_extension p
    raise_if (is_too_large (Dict.get p st)) too_large
    content ← text_in (Dict.get p st)
    raise_if (not (occurs old content)) no_match
    raise_if (ltb 1 (count old content)) (ambiguous (count old content))
    raise_if (is_unsafe new) unsafe
    raise_if (ltb max_size_write (size (replace_first old new content))) too_large
    written (write_text p (replace_first old new content) st)
