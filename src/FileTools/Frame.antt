-- ===== src/FileTools/Frame.antt =====
-- Which files a call of a file tool can change.
use crabclaw.Prelude.{
  ◌≡◌, refl, sym, ap, ◌∙◌, subst, Bool, true, false, ◌⊎◌, inl, inr, Option, none, some, List, [],
  ◌∷◌, if◌then◌else◌, nat_eq, ◌==◌, ltb, some-injective, arith, eq_of_beq,
}
use crabclaw.Prelude.Dict
use crabclaw.Prelude.Dict.{get-put}
use crabclaw.Prelude.Result.{Result, ok, >>=-eq-ok}
use crabclaw.Prelude.Text.{Text, list_eq}
use crabclaw.FileTools.{
  FilePath, Entry, directory, file, binary, Files, Refusal, too_large, unsafe, size, max_size_write,
  parents, make_dir, and_then, make_dirs, write_over, write_text, Tool, resolve_path,
  validate_extension, is_unsafe, written, write_file,
}
use crabclaw.FileTools.Paths.{>>-eq-ok, IsPermitted, accepted-IsPermitted}

-- the file at a path, where a directory is none
abbrev pub stored : Option Entry → Option Entry
stored (some (file s)) = some (file s)
stored (some (binary n)) = some (binary n)
stored _ = none

make_dir-stored :
    (o : Option Entry) (d q : FilePath) (st st' : Files)
    → Dict.get d st ≡ o
    → make_dir o d st ≡ some st'
    → stored (Dict.get q st') ≡ stored (Dict.get q st)
make_dir-stored none d q st st' e h =
    ap (λ s. stored (Dict.get q s)) (sym (some-injective h))
    ∙ ap stored (get-put d q directory st)
    ∙ by_test (d == q) refl
  where
    by_test :
        (b : Bool)
        → (d == q) ≡ b
        → stored (if b then some directory else Dict.get q st) ≡ stored (Dict.get q st)
    by_test true f = ap stored (sym (subst (λ k. Dict.get k st ≡ none) (eq_of_beq f) e))
    by_test false f = refl
make_dir-stored (some directory) d q st st' e h =
    ap (λ s. stored (Dict.get q s)) (sym (some-injective h))
make_dir-stored (some (file s)) d q st st' e h = absurd (ground arith)
make_dir-stored (some (binary n)) d q st st' e h = absurd (ground arith)

make_dirs-stored :
    (ds : List FilePath) (q : FilePath) (st st' : Files)
    → make_dirs ds st ≡ some st'
    → stored (Dict.get q st') ≡ stored (Dict.get q st)
unfolding make_dirs
make_dirs-stored [] q st st' h = ap (λ s. stored (Dict.get q s)) (sym (some-injective h))
make_dirs-stored (d ∷ ds) q st st' h =
    after (make_dir (Dict.get d st) d st) refl h (λ s. make_dirs-stored ds q s st')
  where
    after :
        (o : Option Files)
        → make_dir (Dict.get d st) d st ≡ o
        → and_then o (make_dirs ds) ≡ some st'
        → ((s : Files)
            → make_dirs ds s ≡ some st'
            → stored (Dict.get q st') ≡ stored (Dict.get q s))
        → stored (Dict.get q st') ≡ stored (Dict.get q st)
    after none e h ih = absurd (ground arith)
    after (some s) e h ih = ih s h ∙ make_dir-stored (Dict.get d st) d q st s refl e

-- what a write leaves at every other path
pub write_over-put :
    (o : Option Entry) (p : FilePath) (content : Text) (st : Files) {st' : Files}
    → write_over o p content st ≡ some st'
    → Dict.put p (file content) st ≡ st'
write_over-put (some directory) p content st h = absurd (ground arith)
write_over-put none p content st h = some-injective h
write_over-put (some (file s)) p content st h = some-injective h
write_over-put (some (binary n)) p content st h = some-injective h

-- Each file is as before, or it is one that the tool may change.
abbrev pub IsKept : (Text → Text) → Tool → Files → Files → FilePath → Type 0
IsKept lower t st st' q = (stored (Dict.get q st') ≡ stored (Dict.get q st)) ⊎ IsPermitted lower t q

pub write_text-IsKept :
    (lower : Text → Text) (t : Tool) (p q : FilePath) (content : Text) (st : Files) {st' : Files}
    → IsPermitted lower t p
    → write_text p content st ≡ some st'
    → IsKept lower t st st' q
write_text-IsKept lower t p q content st {st'} h w = by_test (p == q) refl
  where
    changed : Dict.get q st' ≡ (if p == q then some (file content) else Dict.get q st)
    changed =
        ap (Dict.get q) (sym (write_over-put (Dict.get p st) p content st w))
        ∙ get-put p q (file content) st

    by_test : (b : Bool) → (p == q) ≡ b → IsKept lower t st st' q
    by_test true e = inr (subst (IsPermitted lower t) (eq_of_beq e) h)
    by_test false e = inl (
        ap stored (changed ∙ ap (λ (b : Bool). if b then some (file content) else Dict.get q st) e))

module _ (lower : Text → Text) (resolve : Option FilePath → Text → Option FilePath)
    (is_dangerous : Text → Bool) where
  pub written-some :
      (o : Option Files) {st : Files} → written lower resolve is_dangerous o ≡ ok st → o ≡ some st
  written-some none h = absurd (ground arith)
  written-some (some s) h = ap some (ok-injective h)
    where
      ok-injective : {a b : Files} → ◌≡◌ {A = Result Refusal Files} (ok a) (ok b) → a ≡ b
      ok-injective e = cc

  -- If a call of the tool that writes a file succeeds, each file is as before, unless it is in one
  -- of the directories of the tool (when it has any) and has, in lower case, an extension that is
  -- allowed and not blocked.
  pub write_file-IsKept :
      (t : Tool) (path content : Text) (st : Files) {st' : Files}
      → write_file lower resolve is_dangerous t path content st ≡ ok st'
      → (q : FilePath) → IsKept lower t st st' q
  unfolding write_file
  write_file-IsKept t path content st {st'} h q =
      let (_, h1) = >>-eq-ok (ltb max_size_write (size content)) too_large _ h in
      let (p, r, h2) = >>=-eq-ok (resolve_path lower resolve is_dangerous t path) _ h1 in
      let (_, v, h3) = >>=-eq-ok (validate_extension lower resolve is_dangerous p) _ h2 in
      let (_, h4) = >>-eq-ok (is_unsafe lower resolve is_dangerous content) unsafe _ h3 in
      let (st1, m, w) =
        >>=-eq-ok (written lower resolve is_dangerous (make_dirs (parents p) st)) _ h4 in
      made st1 (make_dirs-stored (parents p) q st st1 (written-some _ m)) (
        write_text-IsKept lower t p q content st1
          (accepted-IsPermitted lower resolve is_dangerous t path p r v) (written-some _ w))
    where
      made :
          (st1 : Files)
          → stored (Dict.get q st1) ≡ stored (Dict.get q st)
          → IsKept lower t st1 st' q
          → IsKept lower t st st' q
      made st1 e (inl same) = inl (same ∙ e)
      made st1 e (inr permitted) = inr permitted
