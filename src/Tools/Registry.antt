-- ===== src/Tools/Registry.antt =====
-- crabclaw/agent/tools/registry.py: the registry of tools. A tool's body is a parameter, which may
-- change the world and returns a text or raises an exception with a text. The wording of the
-- messages about invalid parameters is the parameter `wording`.
use crabclaw.Prelude.{
  String, ◌≡◌, refl, ap, ◌∙◌, Bool, true, false, Option, none, some, List, [], ◌∷◌, ◌++◌, ◌⊎◌,
  if◌then◌else◌, nat_eq, string_eq, ◌==◌, inl, inr,
}
use crabclaw.Prelude.Text.{Text, codes, starts_with}
use crabclaw.Prelude.Dict
use crabclaw.Prelude.Dict.{Dict}
use crabclaw.Prelude.Result.{Result, ok, raise}
use crabclaw.Json.{Value}
use crabclaw.Tools.{
  Schema, Message, ValueError, not_an_object, as_object, keywords, type_or_object, validate,
  validate_params,
}
use crabclaw.Tools.Conforms.{Conforms, validate-Conforms}

pub record Tool (W : Type 0) : Type 0 where
  pub name : String
  pub parameters : Schema
  pub body : Value → W → Result Text Text × W

abbrev pub is_error : Text → Bool
is_error t = starts_with (codes "Error") t

-- `", ".join(...)` and the like
abbrev pub join : Text → List Text → Text
join separator [] = []
join separator (t ∷ []) = t
join separator (t ∷ u ∷ ts) = t ++ (separator ++ join separator (u ∷ ts))

abbrev pub hint : Text
hint = codes "\n\n[Analyze the error above and try a different approach.]"

module _ (wording : Message → Text) where
  abbrev pub messages : List Message → List Text
  messages [] = []
  messages (m ∷ ms) = wording m ∷ messages ms

  abbrev pub invalid : String → List Message → Text
  invalid name ms =
      codes "Error: Invalid parameters for tool '"
      ++ (codes name ++ (codes "': " ++ (join (codes "; ") (messages ms) ++ hint)))

abbrev pub raised : String → Text → Text
raised name e = codes "Error executing " ++ (codes name ++ (codes ": " ++ (e ++ hint)))

abbrev pub not_found : String → List Text → Text
not_found name names =
    codes "Error: Tool '"
    ++ (codes name ++ (codes "' not found. Available: " ++ join (codes ", ") names))

ok-if :
    (b : Bool) (xs : List Message) (e : ValueError)
    → (if b then ok xs else raise e) ≡ ok []
    → xs ≡ []
ok-if true xs e h = ap (λ r. elim r [ ok ys ↦ ys | raise x ↦ xs ]) h
ok-if false xs e h = cc h

validate_params-ok :
    (s : Schema) (params : Value) → validate_params s params ≡ ok [] → Conforms params (as_object s)
unfolding validate_params
validate_params-ok s params h = (validate-Conforms params (as_object s) []).0 (
    ok-if (type_or_object (keywords s).type == "object") (validate params (as_object s) [])
      (not_an_object (type_or_object (keywords s).type)) h)

module _ {W : Type 0} where
  unfoldable pub register : Tool W → Dict String (Tool W) → Dict String (Tool W)
  register tool r = Dict.put tool.name tool r

  unfoldable pub unregister : String → Dict String (Tool W) → Dict String (Tool W)
  unregister name r = Dict.remove name r

  abbrev pub tool_names : Dict String (Tool W) → List Text
  tool_names [] = []
  tool_names ((name, tool) ∷ r) = codes name ∷ tool_names r

  -- the reply after the body returned or raised
  abbrev pub after_body : String → Result Text Text × W → Text × W
  after_body name (ok t, w) = (if is_error t then t ++ hint else t, w)
  after_body name (raise e, w) = (raised name e, w)

  module _ (wording : Message → Text) (text_of : ValueError → Text) where
    abbrev pub run_checked :
        Result ValueError (List Message) → Tool W → String → Value → W → Text × W
    run_checked (raise e) tool name params w = (raised name (text_of e), w)
    run_checked (ok []) tool name params w = after_body name (tool.body params w)
    run_checked (ok (m ∷ ms)) tool name params w = (invalid wording name (m ∷ ms), w)

    abbrev pub run_tool : Option (Tool W) → Dict String (Tool W) → String → Value → W → Text × W
    run_tool none r name params w = (not_found name (tool_names r), w)
    run_tool (some tool) r name params w =
        run_checked (validate_params tool.parameters params) tool name params w

    -- `ToolRegistry.execute`
    unfoldable pub execute : Dict String (Tool W) → String → Value → W → Text × W
    execute r name params w = run_tool (Dict.get name r) r name params w

    -- The call ran the tool of this name, on parameters that conform to its schema.
    abbrev pub HasRun : Dict String (Tool W) → String → Value → W → Type 0
    HasRun r name params w =
        (tool : Tool W) × ((Dict.get name r ≡ some tool)
          × (Conforms params (as_object tool.parameters)
              × (execute r name params w ≡ after_body name (tool.body params w))))

    -- The call was refused: nothing ran, and the reply is an error.
    abbrev pub IsRefused : Dict String (Tool W) → String → Value → W → Type 0
    IsRefused r name params w =
        ((execute r name params w).1 ≡ w) × (is_error (execute r name params w).0 ≡ true)

    run_checked-cases :
        (c : Result ValueError (List Message)) (tool : Tool W) (name : String) (params : Value)
        (w : W)
        → ((c ≡ ok []) × (run_checked c tool name params w ≡ after_body name (tool.body params w)))
          ⊎ (((run_checked c tool name params w).1 ≡ w)
              × (is_error (run_checked c tool name params w).0 ≡ true))
    run_checked-cases (raise e) tool name params w = inr (refl, refl)
    run_checked-cases (ok []) tool name params w = inl (refl, refl)
    run_checked-cases (ok (m ∷ ms)) tool name params w = inr (refl, refl)

    run_tool-cases :
        (r : Dict String (Tool W)) (name : String) (params : Value) (w : W) (o : Option (Tool W))
        → Dict.get name r ≡ o
        → execute r name params w ≡ run_tool o r name params w
        → HasRun r name params w ⊎ IsRefused r name params w
    run_tool-cases r name params w none found eq = inr (rw eq (refl, refl))
    run_tool-cases r name params w (some tool) found eq =
        elim (run_checked-cases (validate_params tool.parameters params) tool name params w) [
          | inl (accepted, ran) ↦
              inl (tool, (found, (validate_params-ok tool.parameters params accepted, eq ∙ ran)))
          | inr (same, error) ↦ inr (ap (λ p. p.1) eq ∙ same, ap (λ p. is_error p.0) eq ∙ error)
        ]

    -- A call by name either runs the tool registered under the name, with parameters that conform
    -- to its schema read as that of an object, and passes on what the tool returns or raises; or
    -- it leaves the world as it is and replies with a text that begins with Error.
    pub execute-cases :
        (r : Dict String (Tool W)) (name : String) (params : Value) (w : W)
        → HasRun r name params w ⊎ IsRefused r name params w
    unfolding execute
    execute-cases r name params w = run_tool-cases r name params w (Dict.get name r) refl refl
