-- ===== src/FileTools/Paths.antt =====
-- What an accepted path and an accepted extension say of a file.
use crabclaw.Prelude.{
  true_of_not, ◌≡◌, refl, sym, ap, ◌∙◌, Bool, true, false, not, ◌&&◌, ◌||◌, ◌⊎◌, inl, inr, Option,
  some, List, [], ◌∷◌, ◌++◌, nat_eq, ◌==◌, any, elem, ltb, length, arith, eq_of_beq,
}
use crabclaw.Prelude.Result.{Result, ok, ◌>>◌, raise_if, >>=-eq-ok}
use crabclaw.Prelude.Text.{Text, codes, list_eq}
use crabclaw.FileTools.{
  FilePath, Refusal, too_long, null_byte, traversal, encoded_traversal, outside, name_too_long,
  blocked_extension, other_extension, occurs, is_traversal, is_under, name_of, suffix,
  allowed_extensions, blocked_extensions, outside_all, resolved, Tool, resolve_path,
  validate_extension,
}

-- A step that may raise has not, and the rest has run.
pub >>-eq-ok {ℓ κ} :
    {E : Type ℓ} {A : Type κ} (b : Bool) (x : E) (next : Result E A) {a : A}
    → (raise_if b x >> next) ≡ ok a
    → (b ≡ false) × (next ≡ ok a)
>>-eq-ok true x next h = absurd (ground arith)
>>-eq-ok false x next h = (refl, h)

-- The path is in one of the directories.
abbrev pub IsInside : FilePath → List FilePath → Type 0
IsInside path [] = ⊥
IsInside path (d ∷ dirs) = ((rest : FilePath) × (path ≡ d ++ rest)) ⊎ IsInside path dirs

is_under-rest :
    (path d : FilePath) → is_under path d ≡ true → (rest : FilePath) × (path ≡ d ++ rest)
is_under-rest path [] h = (path, refl)
is_under-rest [] (c ∷ d) h = absurd (ground arith)
is_under-rest (b ∷ path) (c ∷ d) h = by_test (b == c) refl h (is_under-rest path d)
  where
    by_test :
        (t : Bool)
        → (b == c) ≡ t
        → (t && is_under path d) ≡ true
        → (is_under path d ≡ true → (rest : FilePath) × (path ≡ d ++ rest))
        → (rest : FilePath) × (b ∷ path ≡ c ∷ (d ++ rest))
    by_test true e h ih =
        let found = ih h in let same : b ≡ c = eq_of_beq e in (found.0, λ i. same i ∷ found.1 i)
    by_test false e h ih = absurd (ground arith)

any-IsInside :
    (path : FilePath) (dirs : List FilePath) → any (is_under path) dirs ≡ true → IsInside path dirs
any-IsInside path [] h = absurd (ground arith)
any-IsInside path (d ∷ dirs) h = by_test (is_under path d) refl h (any-IsInside path dirs)
  where
    by_test :
        (t : Bool)
        → is_under path d ≡ t
        → (t || any (is_under path) dirs) ≡ true
        → (any (is_under path) dirs ≡ true → IsInside path dirs)
        → IsInside path (d ∷ dirs)
    by_test true e h ih = inl (is_under-rest path d e)
    by_test false e h ih = inr (ih h)

-- The file is in a directory of the tool, if it has any, and has an extension that is allowed and
-- not blocked.
pub record IsPermitted (lower : Text → Text) (t : Tool) (path : FilePath) : Type 0 where
  pub inside : (dirs : List FilePath) → t.allowed_dirs ≡ some dirs → IsInside path dirs
  pub allowed : elem (lower (suffix path)) allowed_extensions ≡ true
  pub not_blocked : elem (lower (suffix path)) blocked_extensions ≡ false

module _ (lower : Text → Text) (resolve : Option FilePath → Text → Option FilePath)
    (is_dangerous : Text → Bool) where
  resolve_path-inside :
      (t : Tool) (path : Text) (p : FilePath)
      → resolve_path lower resolve is_dangerous t path ≡ ok p
      → outside_all t.allowed_dirs p ≡ false
  unfolding resolve_path
  resolve_path-inside t path p h =
      let (_, h1) = >>-eq-ok (ltb 4096 (length path)) too_long _ h in
      let (_, h2) = >>-eq-ok (elem 0 path) null_byte _ h1 in
      let (_, h3) = >>-eq-ok (is_traversal path) traversal _ h2 in
      let (_, h4) =
        >>-eq-ok (occurs (codes "%2e%2e") (lower path) || occurs (codes "..%2f") (lower path))
          encoded_traversal _ h3 in
      let (q, _, h5) = >>=-eq-ok (resolved (resolve t.workspace path)) _ h4 in
      let (inside, h6) = >>-eq-ok (outside_all t.allowed_dirs q) outside _ h5 in
      let (_, h7) = >>-eq-ok (ltb 255 (length (name_of q))) name_too_long (ok q) h6 in
      ap (outside_all t.allowed_dirs) (sym (ok-injective h7)) ∙ inside
    where
      ok-injective : {a b : FilePath} → ◌≡◌ {A = Result Refusal FilePath} (ok a) (ok b) → a ≡ b
      ok-injective e = cc

  pub accepted-IsPermitted :
      (t : Tool) (path : Text) (p : FilePath)
      → resolve_path lower resolve is_dangerous t path ≡ ok p
      → validate_extension lower resolve is_dangerous p ≡ ok tt
      → IsPermitted lower t p
  unfolding validate_extension
  accepted-IsPermitted t path p r v =
      let (not_blocked, v1) =
        >>-eq-ok (elem (lower (suffix p)) blocked_extensions) blocked_extension _ v in
      record {
        inside = λ dirs e. any-IsInside p dirs (
            true_of_not (any (is_under p) dirs)
              (ap (λ o. outside_all o p) (sym e) ∙ resolve_path-inside t path p r));
        allowed = allowed_if (elem (lower (suffix p)) allowed_extensions) v1;
        not_blocked = not_blocked;
      }
    where
      allowed_if : (b : Bool) → raise_if (not b) other_extension ≡ ok tt → b ≡ true
      allowed_if true h = refl
      allowed_if false h = absurd (ground arith)
