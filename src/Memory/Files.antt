-- ===== src/Memory/Files.antt =====
-- The memory files of crabclaw/agent/memory.py, the episodic log and the failure path. A semantic
-- file is its JSON object, an episodic file the list of its entries without their time stamps.
use crabclaw.Prelude.{
  ℕ, ◌+◌, String, Bool, true, false, Option, none, some, List, [], ◌∷◌, ◌++◌, if◌then◌else◌, nat_eq,
  string_eq, ◌==◌, length, ltb,
}
use crabclaw.Prelude.Dict
use crabclaw.Prelude.Dict.{Dict}
use crabclaw.Prelude.Result.{Result, ok, ◌>>=◌}
use crabclaw.Prelude.Text.{Text, codes, list_eq}
use crabclaw.Helpers.{safe_filename}
use crabclaw.Json.{Value}
use crabclaw.Session.{Message}
use crabclaw.Memory.Lines.{Line, Error, lines_of}

pub data Entry : Type 0 where
  summary : Text → Entry
  raw : ℕ → List Line → Entry

pub record Store : Type 0 where
  pub global_semantic : Dict String Value
  pub global_episodic : List Entry
  -- by the name of the user's directory
  pub user_semantic : Dict Text (Dict String Value)
  pub user_episodic : Dict Text (List Entry)
  pub consecutive_failures : ℕ

-- `if user_scope:`, for a scope that names a directory of its own: a dot or two dots lead to a directory
-- that the users share, which is taken apart from the others here
unfoldable pub scope_dir : Option String → Option Text
scope_dir none = none
scope_dir (some user_scope) =
    if user_scope == "" then none else some (safe_filename (codes user_scope))

-- A missing file is created empty.
unfoldable pub read_user_semantic : Text → Store → Dict String Value
read_user_semantic dir st = elim (Dict.get dir st.user_semantic) [ none ↦ [] | some d ↦ d ]

unfoldable pub read_user_episodic : Text → Store → List Entry
read_user_episodic dir st = elim (Dict.get dir st.user_episodic) [ none ↦ [] | some es ↦ es ]

-- `append_user_episodic` under a scope, `append_global_episodic` without one
unfoldable pub append_episodic : Option Text → Entry → Store → Store
unfolding read_user_episodic
append_episodic none e st = record st { global_episodic = st.global_episodic ++ e ∷ [] }
append_episodic (some dir) e st = record st {
  user_episodic = Dict.put dir (read_user_episodic dir st ++ e ∷ []) st.user_episodic;
}

unfoldable pub raw_archive : List Message → Option Text → Store → Result Error Store
unfolding lines_of append_episodic
raw_archive ms dir st = do lines ← lines_of ms; ok (append_episodic dir (raw (length ms) lines) st)

abbrev pub max_failures : ℕ
max_failures = 3

unfoldable pub fail_or_raw_archive :
    List Message → Option Text → Store → Result Error (Bool × Store)
unfolding raw_archive
fail_or_raw_archive old dir st =
    let st' = record st { consecutive_failures = st.consecutive_failures + 1 } in
    if ltb (st.consecutive_failures + 1) max_failures
    then ok (false, st')
    else (do done ← raw_archive old dir st'; ok (true, record done { consecutive_failures = 0 }))
