-- ===== src/Tests/Tools.antt =====
-- The check of tool parameters at concrete inputs.
use crabclaw.Prelude.{
  ℕ, suc, String, ◌≡◌, ◌↔◌, ◌⊎◌, none, some, [], ◌∷◌, nat_eq, string_eq, pair_eq,
}
use crabclaw.Prelude.Int.{pos}
use crabclaw.Prelude.Text.{Text, codes}
use crabclaw.Prelude.Result.{ok}
use crabclaw.Json.{Value, int, str, obj, field, end}
use crabclaw.Tools.{
  Keywords, Schema, schema, no_more, property, no_items, Message, ValueError, validate,
}
use crabclaw.Tools.Asked.{IsValid}
use crabclaw.Tools.Places.{validate-IsValid}
use crabclaw.Tools.Registry.{Tool, register, HasRun, IsRefused, execute-cases}

abbrev of_type : String → Keywords
of_type t = record {
  type = some t;
  enum = none;
  minimum = none;
  maximum = none;
  min_length = none;
  max_length = none;
  required = [];
}

abbrev count_schema : Schema
count_schema = schema (record (of_type "integer") { minimum = some (pos 1, 0) }) no_more no_items

abbrev search_schema : Schema
search_schema =
    schema (record (of_type "object") { required = "query" ∷ [] })
      (property "query" (schema (of_type "string") no_more no_items)
        (property "count" count_schema no_more))
      no_items

abbrev params : Value
params = obj (field "query" (str "crab") (field "count" (int (pos 3)) end))

validate-IsValid_example : (validate params search_schema [] ≡ []) ↔ IsValid params search_schema
validate-IsValid_example = validate-IsValid params search_schema []

abbrev search_tool : Tool ℕ
search_tool = record {
  name = "web_search";
  parameters = search_schema;
  body = λ p w. (ok (codes "found"), suc w);
}

abbrev wording : Message → Text
wording m = codes "invalid"

abbrev text_of : ValueError → Text
text_of e = codes "schema"

execute-cases_example :
    HasRun wording text_of (register search_tool []) "web_search" params 0
    ⊎ IsRefused wording text_of (register search_tool []) "web_search" params 0
execute-cases_example =
    execute-cases wording text_of (register search_tool []) "web_search" params 0
