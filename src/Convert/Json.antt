-- ===== src/Convert/Json.antt =====
-- Decoded JSON, and the parts of types/message.go that read it: getSectorNumberFromParam,
-- getSealRandEpochFromParam and getSectorLength.
use lotus_tools.Prelude.{
  ℕ, suc, ℤ, pos, String, Bool, true, false, ◌||◌, Option, none, some, Run, done, panic, ◌>>=◌,
  ◌==◌, if◌then◌else◌, string_eq,
}
use lotus_tools.Config.{Float64}
use lotus_tools.Node.{
  pre_commit_sector, prove_commit_sector, pre_commit_sector_batch, prove_commit_aggregate,
}

-- An `interface{}` that encoding/json has decoded into: every number is a float64.
mutual
  pub data Json : Type 0 where
    null : Json
    bool : Bool → Json
    num : Float64 → Json
    str : String → Json
    arr : Items → Json
    obj : Fields → Json

  pub data Items : Type 0 where
    nil : Items
    cons : Json → Items → Items

  pub data Fields : Type 0 where
    end : Fields
    field : String → Json → Fields → Fields

-- The key of a decoded object.
abbrev pub get : String → Fields → Option Json
get k end = none
get k (field j v fs) = if string_eq.beq j k then some v else get k fs

-- What the code uses of the language's float64 arithmetic and of encoding/json: a sum, the
-- conversions to integers, and the decoding of a text into an object (`none` is an error).
pub record Decoder : Type 0 where
  pub unmarshal : String → Option Fields
  pub add : Float64 → Float64 → Float64
  pub to_uint64 : Float64 → ℕ
  pub to_int64 : Float64 → ℤ

-- v.(float64)
abbrev pub as_float : Json → Run Float64
as_float (num f) = done f
as_float null = panic
as_float (bool _) = panic
as_float (str _) = panic
as_float (arr _) = panic
as_float (obj _) = panic

-- v, ok := arr.([]interface{})
abbrev pub as_items : Json → Option Items
as_items (arr xs) = some xs
as_items null = none
as_items (bool _) = none
as_items (num _) = none
as_items (str _) = none
as_items (obj _) = none

abbrev pub length_items : Items → ℕ
length_items nil = 0
length_items (cons _ xs) = suc (length_items xs)

-- The value of a key as a float, converted, or a default where there is no such key.
abbrev pub read_number {ℓ} : {A : Type ℓ} → (Float64 → A) → A → Option Json → Run A
read_number convert d none = done d
read_number convert d (some v) = do f ← as_float v; done (convert f)

module _ (d : Decoder) where
  unfoldable pub get_sector_number_from_param : ℕ → String → Run ℕ
  get_sector_number_from_param method param = elim (d.unmarshal param) [
    | none ↦ done 0
    | some result ↦
        if method == pre_commit_sector || method == prove_commit_sector
        then read_number d.to_uint64 0 (get "SectorNumber" result)
        else done 0
  ]

  unfoldable pub get_seal_rand_epoch_from_param : ℕ → String → Run ℤ
  get_seal_rand_epoch_from_param method param = elim (d.unmarshal param) [
    | none ↦ done (pos 0)
    | some result ↦
        if method == pre_commit_sector
        then read_number d.to_int64 (pos 0) (get "SealRandEpoch" result)
        else done (pos 0)
  ]

  -- The loop over the sector bitfield: the entries at odd places are the run lengths of sectors
  -- that are present. `odd` is the parity of the place.
  unfoldable pub sum_odd : Bool → Float64 → Items → Run Float64
  sum_odd odd sum nil = done sum
  sum_odd false sum (cons v vs) = sum_odd true sum vs
  sum_odd true sum (cons v vs) = do f ← as_float v; sum_odd false (d.add sum f) vs

  -- The list under a key, where it is one.
  abbrev items_of : Option Json → Option Items
  items_of none = none
  items_of (some v) = as_items v

  unfoldable pub aggregate_length : Fields → Run ℤ
  aggregate_length result = elim (items_of (get "SectorNumbers" result)) [
    | none ↦ done (pos 0)
    | some vl ↦ do sum ← sum_odd false 0 vl; done (d.to_int64 sum)
  ]

  unfoldable pub get_sector_length : ℕ → String → Run ℤ
  get_sector_length method param = elim (d.unmarshal param) [
    | none ↦ done (pos 0)
    | some result ↦
        let aggregate =
          if method == prove_commit_aggregate then aggregate_length result else done (pos 0) in
        if method == pre_commit_sector_batch
        then elim (items_of (get "Sectors" result)) [
          | none ↦ aggregate
          | some vl ↦ done (pos (length_items vl))
        ]
        else aggregate
  ]
