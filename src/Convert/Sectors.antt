-- ===== src/Convert/Sectors.antt =====
-- How many sectors a batch message counts, and when a parameter text makes the conversion panic.
use lotus_tools.Prelude.{
  ℕ, String, Bool, true, false, ◌≡◌, refl, ◌↔◌, Option, none, some, List, [], ◌∷◌, done, panic,
  arith, inl, inr, ◌⊎◌, Option-cases, ◌==◌, if◌then◌else◌, ◌||◌, Bool-cases, sym, ◌∙◌,
}
use lotus_tools.Config.{Float64}
use lotus_tools.Node.{pre_commit_sector, prove_commit_sector, prove_commit_aggregate}
use lotus_tools.Convert.Json.{
  Json, num, arr, Items, nil, cons, Fields, get, Decoder, as_float, read_number,
  get_sector_number_from_param, get_sector_length, sum_odd, aggregate_length,
}

-- A bitfield as JSON: pairs of the length of a gap and of the run of sectors after it.
abbrev pub runs_json : List (Float64 × Float64) → Items
runs_json [] = nil
runs_json ((gap, run) ∷ rs) = cons (num gap) (cons (num run) (runs_json rs))

abbrev is_sector_method : ℕ → Bool
is_sector_method method = method == pre_commit_sector || method == prove_commit_sector

sector_method_iff :
    (method : ℕ)
    → (is_sector_method method ≡ true)
      ↔ ((method ≡ pre_commit_sector) ⊎ (method ≡ prove_commit_sector))
sector_method_iff method = ground arith

read_number-panic :
    (f : Float64 → ℕ) (d : ℕ) (o : Option Json)
    → read_number f d o ≡ panic
    → (v : Json) × (o ≡ some v) × (as_float v ≡ panic)
read_number-panic f d none h = cc
read_number-panic f d (some v) h = (v, refl, ground arith)

module _ (d : Decoder) where
  -- The lengths of the runs, added from the left.
  abbrev pub total_runs : Float64 → List (Float64 × Float64) → Float64
  total_runs sum [] = sum
  total_runs sum ((gap, run) ∷ rs) = total_runs (d.add sum run) rs

  sum_odd-runs :
      (sum : Float64) (rs : List (Float64 × Float64))
      → sum_odd d false sum (runs_json rs) ≡ done (total_runs sum rs)
  unfolding sum_odd
  sum_odd-runs sum [] = refl
  sum_odd-runs sum ((gap, run) ∷ rs) = sum_odd-runs (d.add sum run) rs

  -- The sector count of an aggregated proof is the sum of the runs of its sector bitfield,
  -- without the gaps between them.
  pub get_sector_length-runs :
      (param : String) (rs : List (Float64 × Float64)) {fields : Fields}
      → d.unmarshal param ≡ some fields
      → get "SectorNumbers" fields ≡ some (arr (runs_json rs))
      → get_sector_length d prove_commit_aggregate param ≡ done (d.to_int64 (total_runs 0 rs))
  unfolding get_sector_length aggregate_length
  get_sector_length-runs param rs h e = ground (arith, sum_odd-runs 0 rs)

  number_of_object :
      (method : ℕ) (param : String) {fields : Fields}
      → d.unmarshal param ≡ some fields
      → get_sector_number_from_param d method param ≡ (
          if is_sector_method method
          then read_number d.to_uint64 0 (get "SectorNumber" fields)
          else done 0)
  unfolding get_sector_number_from_param
  number_of_object method param e = rw (e, get_sector_number_from_param)

  number_of_error :
      (method : ℕ) (param : String)
      → d.unmarshal param ≡ none
      → get_sector_number_from_param d method param ≡ done 0
  unfolding get_sector_number_from_param
  number_of_error method param e = rw (e, get_sector_number_from_param)

  -- A parameter object with a sector number that is not a number.
  abbrev pub IsMalformed : String → Type 0
  IsMalformed param =
      (fields : Fields) × (v : Json) × (d.unmarshal param ≡ some fields)
      × (get "SectorNumber" fields ≡ some v)
      × (as_float v ≡ panic)

  IsMalformed-of_panic :
      (method : ℕ) (param : String)
      → get_sector_number_from_param d method param ≡ panic
      → (is_sector_method method ≡ true) × IsMalformed param
  IsMalformed-of_panic method param h = elim (Option-cases (d.unmarshal param)) [
    | inl e ↦ let f = number_of_error method param e in cc
    | inr (fields, e) ↦
        let f = number_of_object method param e in
        elim (Bool-cases (is_sector_method method)) [
          | inl yes_sector ↦
              let p : read_number d.to_uint64 0 (get "SectorNumber" fields) ≡ panic =
                sym (rw yes_sector at f) ∙ h in
              let (v, g, w) = read_number-panic d.to_uint64 0 (get "SectorNumber" fields) p in
              (yes_sector, (fields, v, e, g, w))
          | inr other ↦ let g = rw other at f in cc
        ]
  ]

  panic_of_malformed :
      (method : ℕ) (param : String)
      → is_sector_method method ≡ true
      → IsMalformed param
      → get_sector_number_from_param d method param ≡ panic
  panic_of_malformed method param b (fields, v, e, g, w) =
      number_of_object method param e ∙ rw (b, g, w)

  -- Reading a sector number panics exactly when a pre-commit or a prove-commit message has a
  -- parameter object whose SectorNumber is there and is not a number; all other texts give a
  -- number.
  pub get_sector_number_from_param-panic_iff :
      (method : ℕ) (param : String)
      → (get_sector_number_from_param d method param ≡ panic)
        ↔ (((method ≡ pre_commit_sector) ⊎ (method ≡ prove_commit_sector)) × IsMalformed param)
  get_sector_number_from_param-panic_iff method param = (
    λ h. let (b, m) = IsMalformed-of_panic method param h in ((sector_method_iff method).0 b, m),
    λ h. panic_of_malformed method param ((sector_method_iff method).1 h.0) h.1,
  )
