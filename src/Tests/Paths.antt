-- ===== src/Tests/Paths.antt =====
-- The example of util/parse.go: the path a, b, c of an object.
use lotus_tools.Prelude.{String, [], ◌∷◌, ◌≡◌, refl, done, ok}
use lotus_tools.Convert.Json.{Json, str, obj, null, Fields, field, end}
use lotus_tools.Util.Fields.{get_value_from_fields, Finds, get_value_from_fields-Finds}

abbrev format : Json → String
format (str s) = s
format _ = "?"

abbrev source : Fields
source = field "x" null (field "a" (obj (field "b" (obj (field "c" (str "hello") end)) end)) end)

found : get_value_from_fields format ("a" ∷ "b" ∷ "c" ∷ []) source ≡ done (ok "hello")
unfolding get_value_from_fields
found = refl

get_value_from_fields-Finds_example :
    Finds format
      ("a" ∷ "b" ∷ "c" ∷ [])
      source
      (get_value_from_fields format ("a" ∷ "b" ∷ "c" ∷ []) source)
get_value_from_fields-Finds_example = get_value_from_fields-Finds format "a" ("b" ∷ "c" ∷ []) source
