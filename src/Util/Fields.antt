-- ===== src/Util/Fields.antt =====
-- util/parse.go: a value of a decoded object by the path of its keys.
use lotus_tools.Prelude.{
  String, ◌≡◌, ◌⊎◌, inl, inr, Option, none, some, Option-cases, List, [], ◌∷◌, Result, ok, err, Run,
  done, panic, arith, ◌∙◌,
}
use lotus_tools.Convert.Json.{Json, null, bool, num, str, arr, obj, Fields, get}

-- v.(map[string]interface{})
abbrev pub as_object : Option Json → Option Fields
as_object (some (obj fs)) = some fs
as_object (some null) = none
as_object (some (bool _)) = none
as_object (some (num _)) = none
as_object (some (str _)) = none
as_object (some (arr _)) = none
as_object none = none

module _ (format : Json → String) where
  abbrev pub last_field : Option Json → Result String
  last_field none = err "no this field"
  last_field (some v) = ok (format v)

  -- `format` prints a value by %v. Without a key `fields[0]` panics.
  unfoldable pub get_value_from_fields : List String → Fields → Run (Result String)
  get_value_from_fields [] source = panic
  get_value_from_fields (k ∷ []) source = done (last_field (get k source))
  get_value_from_fields (k ∷ j ∷ fields) source = elim (as_object (get k source)) [
    | none ↦ done (err "error parse field")
    | some next ↦ get_value_from_fields (j ∷ fields) next
  ]

-- The value at the end of a path.
unfoldable pub at_path : List String → Json → Option Json
at_path [] v = some v
at_path (k ∷ path) v = elim (as_object (some v)) [
  | none ↦ none
  | some fs ↦ elim (get k fs) [ none ↦ none | some w ↦ at_path path w ]
]

module _ (format : Json → String) where
  -- What a search should give.
  abbrev pub Finds : List String → Fields → Run (Result String) → Type 0
  Finds path source r =
      ((v : Json) × (at_path path (obj source) ≡ some v) × (r ≡ done (ok (format v))))
      ⊎ ((at_path path (obj source) ≡ none) × ((e : String) × (r ≡ done (err e))))

  found_last :
      (k : String) (source : Fields)
      → Finds (k ∷ []) source (get_value_from_fields format (k ∷ []) source)
  unfolding at_path get_value_from_fields
  found_last k source = elim (Option-cases (get k source)) [
    | inl e ↦ inr (ground arith, ("no this field", ground arith))
    | inr (v, e) ↦ inl (v, ground arith, ground arith)
  ]

  -- One step of both: the value under the first key, as an object.
  path_object :
      (k j : String) (path : List String) (source next : Fields)
      → as_object (get k source) ≡ some next
      → at_path (k ∷ j ∷ path) (obj source) ≡ at_path (j ∷ path) (obj next)
  unfolding at_path
  path_object k j path source next h = elim (Option-cases (get k source)) [
    | inl e ↦ ground arith
    | inr (v, e) ↦ ground arith
  ]

  path_other :
      (k j : String) (path : List String) (source : Fields)
      → as_object (get k source) ≡ none
      → at_path (k ∷ j ∷ path) (obj source) ≡ none
  unfolding at_path
  path_other k j path source h = elim (Option-cases (get k source)) [
    | inl e ↦ ground arith
    | inr (v, e) ↦ ground arith
  ]

  value_object :
      (k j : String) (path : List String) (source next : Fields)
      → as_object (get k source) ≡ some next
      → get_value_from_fields format (k ∷ j ∷ path) source
        ≡ get_value_from_fields format (j ∷ path) next
  unfolding get_value_from_fields
  value_object k j path source next h = ground arith

  value_other :
      (k j : String) (path : List String) (source : Fields)
      → as_object (get k source) ≡ none
      → get_value_from_fields format (k ∷ j ∷ path) source ≡ done (err "error parse field")
  unfolding get_value_from_fields
  value_other k j path source h = ground arith

  -- For any path that is not empty the function returns: the printed value at the end of the path,
  -- where each key but the last leads to an object and the last is there, and else an error.
  pub get_value_from_fields-Finds :
      (k : String) (path : List String) (source : Fields)
      → Finds (k ∷ path) source (get_value_from_fields format (k ∷ path) source)
  get_value_from_fields-Finds k [] source = found_last k source
  get_value_from_fields-Finds k (j ∷ path) source = elim (Option-cases (as_object (get k source))) [
    | inl h ↦
        inr (path_other k j path source h, ("error parse field", value_other k j path source h))
    | inr (next, h) ↦
        let p = path_object k j path source next h in
        let v = value_object k j path source next h in
        elim (get_value_from_fields-Finds j path next) [
          | inl (w, a, b) ↦ inl (w, p ∙ a, v ∙ b)
          | inr (a, b) ↦ inr (p ∙ a, (b.0, v ∙ b.1))
        ]
  ]
