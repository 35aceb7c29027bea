-- ===== src/FileTools/Edits.antt =====
-- What an edit does to its file: one occurrence of the old text is replaced.
use crabclaw.Prelude.{
  true_of_not, ℕ, zero, suc, ◌<◌, ◌+◌, ◌-◌, ◌≤◌, ◌≡◌, refl, sym, ap, ◌∙◌, subst, beq_refl, ◌⊎◌, inl,
  inr, Bool, true, false, not, ◌&&◌, ◌||◌, Option, none, some, [], ◌∷◌, ◌++◌, if◌then◌else◌, nat_eq,
  ◌==◌, ltb, le_of_ltb, length, drop, append-nil, arith, eq_of_beq,
}
use crabclaw.Prelude.Dict
use crabclaw.Prelude.Result.{Result, ok, >>=-eq-ok}
use crabclaw.Prelude.Text.{Text, list_eq, starts_with}
use crabclaw.FileTools.{
  FilePath, Entry, directory, file, binary, Files, Refusal, too_large, unsafe, no_match, ambiguous,
  size, occurs, max_size_write, is_too_large, refuse_missing, text_in, universal, write_text,
  count_from, count, replace_first, Tool, resolve_path, validate_extension, is_unsafe, edit_file,
}
use crabclaw.FileTools.Paths.{>>-eq-ok, accepted-IsPermitted}
use crabclaw.FileTools.Frame.{IsKept, write_text-IsKept, write_over-put, written-some}

starts_with-drop : (s t : Text) → starts_with s t ≡ true → t ≡ s ++ drop (length s) t
starts_with-drop [] t h = refl
starts_with-drop (c ∷ s) [] h = absurd (ground arith)
starts_with-drop (c ∷ s) (d ∷ t) h = by_test (c == d) refl h (starts_with-drop s t)
  where
    by_test :
        (b : Bool)
        → (c == d) ≡ b
        → (b && starts_with s t) ≡ true
        → (starts_with s t ≡ true → t ≡ s ++ drop (length s) t)
        → d ∷ t ≡ c ∷ (s ++ drop (length s) t)
    by_test true e h ih = let same : c ≡ d = eq_of_beq e in λ i. sym same i ∷ ih h i
    by_test false e h ih = absurd (ground arith)

-- A text around its first occurrence, and the text with the occurrence replaced.
pub record IsReplaced (old new s s' : Text) : Type 0 where
  pub before : Text
  pub after : Text
  pub found : s ≡ before ++ (old ++ after)
  pub replaced : s' ≡ before ++ (new ++ after)
  pub is_first : (i : ℕ) → i < length before → starts_with old (drop i s) ≡ false

replace_first-IsReplaced :
    (old new s : Text) → occurs old s ≡ true → IsReplaced old new s (replace_first old new s)
unfolding replace_first occurs
replace_first-IsReplaced [] new [] h = record {
  before = [];
  after = [];
  found = refl;
  replaced = sym (append-nil new);
  is_first = λ i h. absurd (omega arith);
}
replace_first-IsReplaced (o ∷ old) new [] h = absurd (ground arith)
replace_first-IsReplaced old new (c ∷ s) h =
    by_test (starts_with old (c ∷ s)) refl h (replace_first-IsReplaced old new s)
  where
    first_after :
        starts_with old (c ∷ s) ≡ false
        → (before : Text) → ((i : ℕ) → i < length before → starts_with old (drop i s) ≡ false)
        → (i : ℕ) → i < suc (length before)
        → starts_with old (drop i (c ∷ s)) ≡ false
    first_after e before ih zero h = e
    first_after e before ih (suc i) h = ih i (omega (arith, h))

    by_test :
        (b : Bool)
        → starts_with old (c ∷ s) ≡ b
        → (b || occurs old s) ≡ true
        → (occurs old s ≡ true → IsReplaced old new s (replace_first old new s))
        → IsReplaced old new
            (c ∷ s)
            (if b then new ++ drop (length old) (c ∷ s) else c ∷ replace_first old new s)
    by_test true e h ih = record {
      before = [];
      after = drop (length old) (c ∷ s);
      found = starts_with-drop old (c ∷ s) e;
      replaced = refl;
      is_first = λ i h. absurd (omega arith);
    }
    by_test false e h ih =
        let r = ih h in
        record {
          before = c ∷ r.before;
          after = r.after;
          found = ap (◌∷◌ c) r.found;
          replaced = ap (◌∷◌ c) r.replaced;
          is_first = first_after e r.before r.is_first;
        }

occurs-count_from :
    (o : ℕ) (old s : Text) → occurs (o ∷ old) s ≡ true → 1 ≤ count_from (o ∷ old) 0 s
unfolding count_from occurs
occurs-count_from o old [] h = absurd (ground arith)
occurs-count_from o old (c ∷ s) h =
    by_test (starts_with (o ∷ old) (c ∷ s)) h (occurs-count_from o old s)
  where
    by_test :
        (b : Bool)
        → (b || occurs (o ∷ old) s) ≡ true
        → (occurs (o ∷ old) s ≡ true → 1 ≤ count_from (o ∷ old) 0 s)
        → 1 ≤ (if b then 1 else 0) + count_from (o ∷ old) (if b then length (o ∷ old) - 1 else 0) s
    by_test true h ih = omega arith
    by_test false h ih = omega (arith, ih h)

occurs-count : (old s : Text) → occurs old s ≡ true → 1 ≤ count old s
unfolding count
occurs-count [] s h = omega arith
occurs-count (o ∷ old) s h = occurs-count_from o old s h

-- Counting skips the characters of an occurrence.
count_from-drop : (old s : Text) (k : ℕ) → count_from old k s ≡ count_from old 0 (drop k s)
unfolding count_from
count_from-drop old s zero = refl
count_from-drop old [] (suc k) = refl
count_from-drop old (c ∷ s) (suc k) = count_from-drop old s k

occurs_none : (o : ℕ) (old s : Text) → count_from (o ∷ old) 0 s ≡ 0 → occurs (o ∷ old) s ≡ false
occurs_none o old s h = by_test (occurs (o ∷ old) s) refl
  where
    by_test : (b : Bool) → occurs (o ∷ old) s ≡ b → b ≡ false
    by_test false e = refl
    by_test true e = let le = occurs-count_from o old s e in absurd (omega (arith, le, h))

starts_with-append : (s t : Text) → starts_with s (s ++ t) ≡ true
starts_with-append [] t = refl
starts_with-append (c ∷ s) t =
    ap (λ (b : Bool). b && starts_with s (s ++ t)) (beq_refl c) ∙ starts_with-append s t

drop-append : (s t : Text) → drop (length s) (s ++ t) ≡ t
drop-append [] t = refl
drop-append (c ∷ s) t = drop-append s t

-- What stands behind the first occurrence counts one less.
first-count_from :
    (o : ℕ) (old before after : Text)
    → ((i : ℕ)
        → i < length before
        → starts_with (o ∷ old) (drop i (before ++ ((o ∷ old) ++ after))) ≡ false)
    → count_from (o ∷ old) 0 (before ++ ((o ∷ old) ++ after)) ≡ suc (count_from (o ∷ old) 0 after)
unfolding count_from
first-count_from o old [] after h =
    ap
      (λ (b : Bool).
        (if b then 1 else 0)
        + count_from (o ∷ old) (if b then length (o ∷ old) - 1 else 0) (old ++ after))
      (starts_with-append (o ∷ old) after)
    ∙ ap (λ k. 1 + count_from (o ∷ old) k (old ++ after)) (less_one (length old))
    ∙ ap (λ n. 1 + n)
        (count_from-drop (o ∷ old) (old ++ after) (length old)
          ∙ ap (count_from (o ∷ old) 0) (drop-append old after))
    ∙ one_more (count_from (o ∷ old) 0 after)
  where
    one_more : (n : ℕ) → 1 + n ≡ suc n
    one_more n = omega arith

    less_one : (n : ℕ) → suc n - 1 ≡ n
    less_one n = omega arith
first-count_from o old (c ∷ before) after h =
    let s = before ++ ((o ∷ old) ++ after) in
    ap
      (λ (b : Bool).
        (if b then 1 else 0) + count_from (o ∷ old) (if b then length (o ∷ old) - 1 else 0) s)
      (h 0 (omega arith))
    ∙ no_more (count_from (o ∷ old) 0 s)
    ∙ first-count_from o old before after (λ i l. h (suc i) (omega (arith, l)))
  where
    no_more : (n : ℕ) → 0 + n ≡ n
    no_more n = omega arith

-- Where an occurrence counts once, there is none behind the first.
none_behind :
    (old new s s' : Text) (r : IsReplaced old new s s')
    → count old s ≡ 1
    → (old ≡ []) ⊎ (occurs old r.after ≡ false)
unfolding count
none_behind [] new s s' r h = inl refl
none_behind (o ∷ old) new s s' r h = inr (
    occurs_none o old r.after (
      one (
        sym (
          first-count_from o old r.before r.after (
            subst (λ t. (i : ℕ) → i < length r.before → starts_with (o ∷ old) (drop i t) ≡ false)
              r.found r.is_first))
        ∙ ap (count_from (o ∷ old) 0) (sym r.found)
        ∙ h)))
  where
    one : {n : ℕ} → suc n ≡ 1 → n ≡ 0
    one e = omega (arith, e)

-- What an edit that does not end with an error has done.
pub record IsEdit (p : FilePath) (old new : Text) (st st' : Files) : Type 0 where
  pub raw : Text
  pub content : Text
  pub content' : Text
  pub was : Dict.get p st ≡ some (file raw)
  pub was_read : universal raw ≡ content
  pub is_now : Dict.put p (file content') st ≡ st'
  pub one_place : count old content ≡ 1
  pub replaced : IsReplaced old new content content'
  pub none_behind_it : (old ≡ []) ⊎ (occurs old replaced.after ≡ false)
  pub fits : size content' ≤ max_size_write

text_in-file :
    (o : Option Entry) {s : Text}
    → text_in o ≡ ok s
    → (raw : Text) × (o ≡ some (file raw)) × (universal raw ≡ s)
text_in-file none h = absurd (ground arith)
text_in-file (some directory) h = absurd (ground arith)
text_in-file (some (binary n)) h = absurd (ground arith)
text_in-file (some (file t)) h = (t, refl, ok-injective h)
  where
    ok-injective : {a b : Text} → ◌≡◌ {A = Result Refusal Text} (ok a) (ok b) → a ≡ b
    ok-injective e = cc

module _ (lower : Text → Text) (resolve : Option FilePath → Text → Option FilePath)
    (is_dangerous : Text → Bool) where
  -- If a call of the tool that edits a file succeeds, the path was accepted; the old text is
  -- counted once in the file as it is read, where the count of str.count leaves out occurrences
  -- that overlap one before; the file then holds this text with the first occurrence replaced by
  -- the new text, and behind that occurrence the old text, unless it is empty, does not occur
  -- again; the result is within the size limit, nothing else has changed, and the file is one that
  -- the tool may change.
  pub edit_file-IsEdit :
      (t : Tool) (path old new : Text) (st : Files) {st' : Files}
      → edit_file lower resolve is_dangerous t path old new st ≡ ok st'
      → ((p : FilePath) × (resolve_path lower resolve is_dangerous t path ≡ ok p)
          × IsEdit p old new st st')
        × ((q : FilePath) → IsKept lower t st st' q)
  unfolding edit_file
  edit_file-IsEdit t path old new st {st'} h =
      let (p, r, h1) = >>=-eq-ok (resolve_path lower resolve is_dangerous t path) _ h in
      let (_, _, h2) = >>=-eq-ok (refuse_missing (Dict.get p st)) _ h1 in
      let (_, v, h3) = >>=-eq-ok (validate_extension lower resolve is_dangerous p) _ h2 in
      let (_, h4) = >>-eq-ok (is_too_large (Dict.get p st)) too_large _ h3 in
      let (content, c, h5) = >>=-eq-ok (text_in (Dict.get p st)) _ h4 in
      let (raw, was, was_read) = text_in-file (Dict.get p st) c in
      let (o, h6) = >>-eq-ok (not (occurs old content)) no_match _ h5 in
      let (n, h7) = >>-eq-ok (ltb 1 (count old content)) (ambiguous (count old content)) _ h6 in
      let (_, h8) = >>-eq-ok (is_unsafe lower resolve is_dangerous new) unsafe _ h7 in
      let (f, w) =
        >>-eq-ok (ltb max_size_write (size (replace_first old new content))) too_large _ h8 in
      let occurs_once = true_of_not (occurs old content) o in
      let once : count old content ≡ 1 =
        omega (arith, occurs-count old content occurs_once, le_of_ltb 1 (count old content) n) in
      let r1 = replace_first-IsReplaced old new content occurs_once in
      let put =
        written-some lower resolve is_dangerous (write_text p (replace_first old new content) st)
          w in
      (
        (
          p,
          r,
          record {
            raw = raw;
            content = content;
            content' = replace_first old new content;
            was = was;
            was_read = was_read;
            is_now = write_over-put (Dict.get p st) p (replace_first old new content) st put;
            one_place = once;
            replaced = r1;
            none_behind_it = none_behind old new content (replace_first old new content) r1 once;
            fits = le_of_ltb max_size_write (size (replace_first old new content)) f;
          },
        ),
        λ q.
            write_text-IsKept lower t p q (replace_first old new content) st
              (accepted-IsPermitted lower resolve is_dangerous t path p r v) put,
      )
