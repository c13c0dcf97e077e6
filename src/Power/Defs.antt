-- ===== src/Power/Defs.antt =====
-- The daily samples of cli/pow/main.go, the line of calcu_fun.go and `GetSupply` of pow/pow.go.
-- Floating point numbers are an argument, and the node's answers are one. The printed line of a
-- day is a row of what it is printed from.
use lotus_tools.Prelude.{
  ℕ, zero, suc, ◌+◌, ◌/◌, ◌^◌, ℤ, pos, negsuc, String, List, [], ◌∷◌, ◌++◌, length, Result, ok, err,
  Run, done, panic, ◌>>=◌, index, if◌then◌else◌, ltb_ℤ, leb_ℤ, ◌-ℤ◌, div_ℕ, add64, pos_part, wrap64,
}
use lotus_tools.Node.{ChainTipSet, epochs_in_day}

-- float64, with what the program does with it.
pub record Floats (F : Type 0) : Type 0 where
  pub of_int64 : ℤ → F
  pub sub : F → F → F
  pub mul : F → F → F
  pub div : F → F → F

pub record Point (F : Type 0) : Type 0 where
  pub x : F
  pub y : F

-- `api.CirculatingSupply`
pub record Supply : Type 0 where
  pub vested : ℤ
  pub mined : ℤ
  pub burnt : ℤ
  pub locked : ℤ
  pub circulating : ℤ

-- The node's answers. `tip_set_again` is that to the second call for a height, which `GetSupply`
-- makes. A nil tip set has the empty key.
pub record PowerNode (K : Type 0) : Type 0 where
  pub chain_head : Result ChainTipSet
  pub tip_set_by_height : ℤ → Result ChainTipSet
  pub tip_set_again : ℤ → Result ChainTipSet
  pub key : ChainTipSet → K
  pub empty_key : K
  pub miner_power : K → Result ℤ
  pub circulating_supply : K → Result Supply

-- Euclidean division of `big.Int` by any number.
unfoldable pub big_div : ℤ → ℤ → Run ℤ
big_div a (pos zero) = panic
big_div a (pos (suc d)) = done (div_ℕ a (suc d))
big_div a (negsuc d) = done (pos 0 -ℤ div_ℕ a (suc d))

-- What is printed for a day, and the variables of the loop.
pub record DayRow : Type 0 where
  pub height : ℤ
  pub time : ℤ
  pub power_t : ℤ
  pub supply : Supply
  pub day_mined : ℤ
  pub mined_per_t : ℤ

pub record Samples (F : Type 0) : Type 0 where
  pub last_mined : ℤ
  pub one_day_mined : ℤ
  pub power_points : List (Point F)
  pub mined_points : List (Point F)
  pub rows : List DayRow

abbrev pub no_samples : {F : Type 0} → Samples F
no_samples = record {
  last_mined = pos 0;
  one_day_mined = pos 0;
  power_points = [];
  mined_points = [];
  rows = [];
}

-- How `run` returns: an error, or the two printed lines.
pub data Ending (F : Type 0) : Type 0 where
  failed : String → Ending F
  printed : List DayRow → F × F → F × F → Ending F

module _ {K : Type 0} (node : PowerNode K) where
  -- `GetSupply`, which drops the error of its first call.
  unfoldable pub get_supply : ℤ → Result Supply
  get_supply h = elim (node.tip_set_again h) [
    | err _ ↦ node.circulating_supply node.empty_key
    | ok ts ↦ node.circulating_supply (node.key ts)
  ]

abbrev pub tebi : ℕ
tebi = 2 ^ 40

abbrev pub filecoin_precision : ℕ
filecoin_precision = 10 ^ 18

-- The amount mined since the sample before; the last value stays where there is none.
unfoldable pub mined_since : ℤ → ℤ → ℤ → ℤ
mined_since last day mined = if leb_ℤ last (pos 0) then day else mined -ℤ last

-- The rounds that the loop has at most.
abbrev pub rounds_to : ℤ → ℤ → ℕ
rounds_to from to = pos_part (to -ℤ from) / epochs_in_day + 1

abbrev pub until_head : ℤ → ℤ → ℤ
until_head to height = if ltb_ℤ height to then height else to

module _ {F : Type 0} (float : Floats F) where
  -- `Points2Func`: the factors a and b of y = ax + b.
  unfoldable pub points_to_func : Point F → Point F → F × F
  points_to_func p1 p2 =
      let a = float.div (float.sub p2.y p1.y) (float.sub p2.x p1.x) in
      (a, float.sub p2.y (float.mul a p2.x))

  -- A height as a point's place, and a number of big.Int as its value.
  abbrev pub point : ChainTipSet → ℤ → Point F
  point ts y = record { x = float.of_int64 ts.height; y = float.of_int64 (wrap64 y) }

  unfoldable pub measure : ChainTipSet → ℤ → Supply → Samples F → Run (Samples F)
  measure ts power v s = do
    let day = mined_since s.last_mined s.one_day_mined v.mined
    let power_t = div_ℕ power tebi
    per_t ← big_div day power_t
    done (record {
      last_mined = v.mined;
      one_day_mined = day;
      power_points = s.power_points ++ point ts power_t ∷ [];
      mined_points = s.mined_points ++ point ts (div_ℕ day filecoin_precision) ∷ [];
      rows =
          s.rows
          ++ record {
            height = ts.height;
            time = wrap64 (pos ts.min_timestamp);
            power_t = power_t;
            supply = v;
            day_mined = day;
            mined_per_t = per_t;
          }
            ∷ [];
    })

  -- y = ax + b through the second point and the last but one.
  unfoldable pub fit : List (Point F) → Run (F × F)
  fit points = do
    p1 ← index points (pos 1)
    p2 ← index points (pos (length points) -ℤ pos 2)
    done (points_to_func p1 p2)

  -- The two lines at the end.
  unfoldable pub print_lines : Samples F → Run (Ending F)
  print_lines s = do
    power ← fit s.power_points
    mined ← fit s.mined_points
    done (printed s.rows power mined)

  module _ {K : Type 0} (node : PowerNode K) where
    -- The body of the loop: a height that the node does not answer for is left out.
    unfoldable pub sample_one : ℤ → Samples F → Run (Samples F)
    sample_one i s = elim (node.tip_set_by_height i) [
      | err _ ↦ done s
      | ok ts ↦ elim (node.miner_power (node.key ts)) [
        | err _ ↦ done s
        | ok power ↦ elim (get_supply node i) [ err _ ↦ done s | ok v ↦ measure ts power v s ]
      ]
    ]

    -- The loop from height i on. `rounds` bounds the number of rounds.
    unfoldable pub sample_rounds : ℕ → ℤ → ℤ → Samples F → Run (Samples F)
    sample_rounds zero to i s = done s
    sample_rounds (suc rounds) to i s =
        let more = (do
          s' ← sample_one i s
          sample_rounds rounds to (add64 i (pos epochs_in_day)) s') in
        if ltb_ℤ i to then more else done s

    -- `run`, once it is connected.
    unfoldable pub pow_run : ℤ → ℤ → Run (Ending F)
    pow_run from to = elim node.chain_head [
      | err e ↦ done (failed e)
      | ok head ↦ if leb_ℤ to from then done (failed "from must more than to height") else (do
        let end = until_head to head.height
        s ← sample_rounds (rounds_to from end) end from no_samples
        print_lines s)
    ]
