-- ===== src/Memory/Frame.antt =====
-- What a reply leaves alone: any view of the store that the three kinds of write do not change.
use crabclaw.Prelude.{nat_eq, ◌∙◌, String, ◌≡◌, refl, Bool, Option, none, some, arith}
use crabclaw.Prelude.Dict
use crabclaw.Prelude.Dict.{Dict}
use crabclaw.Prelude.Result.{Result, ok, raise, >>=-eq-ok}
use crabclaw.Prelude.Text.{Text, list_eq}
use crabclaw.Json.{Value, str, obj, to_dict}
use crabclaw.Memory.Lines.{Error}
use crabclaw.Memory.Files.{Entry, Store, append_episodic, summary}
use crabclaw.Memory.Apply.{
  Reply, called, apply_reply, apply_value, apply_global, apply_user, apply_entry, log_entry,
  apply_decoded, after_user, after_global, entry_in,
}

-- The writes for the directory `dir`, or for no user, do not change the view.
pub record Unaffected {ℓ} {B : Type ℓ} (dir : Option Text) (view : Store → B) : Type ℓ where
  pub global :
      (st : Store) (d : Dict String Value) → view (record st { global_semantic = d }) ≡ view st
  pub user :
      (st : Store) (own : Text) (d : Dict String Value)
      → dir ≡ some own
      → view (record st { user_semantic = Dict.put own d st.user_semantic }) ≡ view st
  pub episodic : (st : Store) (e : Entry) → view (append_episodic dir e st) ≡ view st

module _ {ℓ} {B : Type ℓ} (loads : String → Option Value) (dumps : Value → String)
    (same : Dict String Value → Dict String Value → Bool) (dir : Option Text) (view : Store → B)
    (u : Unaffected dir view) where
  view-log_entry : (o : Option Text) (st : Store) → view (log_entry dir o st) ≡ view st
  unfolding log_entry
  view-log_entry none st = refl
  view-log_entry (some text) st = u.episodic st (summary text)

  view-apply_entry :
      (args : Dict String Value) (st : Store)
      → view (apply_entry loads dumps same dir args st) ≡ view st
  unfolding apply_entry
  view-apply_entry args st = view-log_entry (entry_in loads dumps same args) st

  view-apply_global :
      (args : Dict String Value) (st st' : Store)
      → apply_global loads dumps same args st ≡ ok st'
      → view st' ≡ view st
  unfolding apply_global
  view-apply_global args st st' h =
      let f : Dict String Value → Result Error Store =
        λ d. ok (record st { global_semantic = d }) in
      let (d, _, e) = >>=-eq-ok _ f h in ground (arith, u.global st d)

  view-apply_user :
      (o : Option Text) (args : Dict String Value) (st st' : Store)
      → dir ≡ o
      → apply_user loads dumps same o args st ≡ ok st'
      → view st' ≡ view st
  unfolding apply_user
  view-apply_user none args st st' d h = ground arith
  view-apply_user (some own) args st st' d h =
      let f : Dict String Value → Result Error Store =
        λ d. ok (record st { user_semantic = Dict.put own d st.user_semantic }) in
      let (m, _, e) = >>=-eq-ok _ f h in ground (arith, u.user st own m)

  view-after_user :
      (args : Dict String Value) (st : Store) (r : Result Error Store)
      → apply_user loads dumps same dir args st ≡ r
      → view (after_user loads dumps same dir args st r).1 ≡ view st
  unfolding after_user
  view-after_user args st (raise x) e = refl
  view-after_user args st (ok st') e =
      view-apply_entry args st' ∙ view-apply_user dir args st st' refl e

  view-after_global :
      (args : Dict String Value) (st : Store) (r : Result Error Store)
      → apply_global loads dumps same args st ≡ r
      → view (after_global loads dumps same dir args st r).1 ≡ view st
  unfolding after_global
  view-after_global args st (raise x) e = refl
  view-after_global args st (ok st') e =
      view-after_user args st' _ refl ∙ view-apply_global args st st' e

  view-apply_value :
      (v : Value) (st : Store) → view (apply_value loads dumps same dir v st).1 ≡ view st
  unfolding apply_value
  view-apply_value (obj fs) st = view-after_global (to_dict fs) st _ refl
  view-apply_value _ st = refl

  view-apply_decoded :
      (o : Option Value) (st : Store) → view (apply_decoded loads dumps same dir o st).1 ≡ view st
  unfolding apply_decoded
  view-apply_decoded none st = refl
  view-apply_decoded (some v) st = view-apply_value v st

  pub view-apply_reply :
      (reply : Reply) (st : Store) → view (apply_reply loads dumps same dir reply st).1 ≡ view st
  unfolding apply_reply
  view-apply_reply (called (str s)) st = view-apply_decoded (loads s) st
  view-apply_reply (called (obj fs)) st = view-apply_value (obj fs) st
  view-apply_reply (called _) st = refl
  view-apply_reply _ st = refl
