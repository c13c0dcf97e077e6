-- ===== src/Power/Days.antt =====
-- The loop of cli/pow/main.go visits one height a day, and keeps the days that the node answers for.
use lotus_tools.Prelude.{
  ℕ, zero, suc, ◌+◌, ◌-◌, ◌*◌, ◌/◌, ◌≤◌, ◌<◌, ℤ, pos, ◌≡◌, refl, sym, ap, ◌∙◌, inl, inr, ◌⊎◌,
  Option, none, some, List, [], ◌∷◌, Result-cases, ok, err, Run, done, ◌>>=◌, arith, add64,
  add64_pos, bound64, ◌-ℤ◌, pos_part, >>=_cong, dec_lt,
}
use lotus_tools.Node.{ChainTipSet, epochs_in_day}
use lotus_tools.Power.Defs.{
  Floats, Supply, PowerNode, Samples, get_supply, measure, sample_one, sample_rounds, rounds_to,
}

-- What the node answers for a height.
pub record Reading : Type 0 where
  pub ts : ChainTipSet
  pub power : ℤ
  pub supply : Supply

-- n heights, a day apart.
abbrev pub days : ℕ → ℕ → List ℤ
days zero i = []
days (suc n) i = pos i ∷ days n (i + epochs_in_day)

-- The days that it takes from a height to come to another.
abbrev pub day_count : ℕ → ℕ → ℕ
day_count from to = (to - from + (epochs_in_day - 1)) / epochs_in_day

module _ {K : Type 0} (node : PowerNode K) where
  abbrev pub read_day : ℤ → Option Reading
  read_day i = elim (node.tip_set_by_height i) [
    | err _ ↦ none
    | ok ts ↦ elim (node.miner_power (node.key ts)) [
      | err _ ↦ none
      | ok power ↦ elim (get_supply node i) [
        | err _ ↦ none
        | ok v ↦ some (record { ts = ts; power = power; supply = v })
      ]
    ]
  ]

  abbrev pub add_reading : Option Reading → List Reading → List Reading
  add_reading none rs = rs
  add_reading (some r) rs = r ∷ rs

  -- The readings of some heights, without those that the node does not answer for.
  abbrev pub readings : List ℤ → List Reading
  readings [] = []
  readings (i ∷ is) = add_reading (read_day i) (readings is)

day_count_last :
    (from to : ℕ)
    → (day_count from to ≡ 0) ⊎ (from + day_count from to * epochs_in_day < to + epochs_in_day)
day_count_last from to = elim (dec_lt from to) [
  | yes p ↦ inr (omega arith)
  | no p ↦ inl (omega arith)
]

module _ {F : Type 0} (float : Floats F) where
  abbrev pub measure_all : List Reading → Samples F → Run (Samples F)
  measure_all [] s = done s
  measure_all (r ∷ rs) s = measure float r.ts r.power r.supply s >>= measure_all rs

  module _ {K : Type 0} (node : PowerNode K) where
    abbrev measure_read : Option Reading → Samples F → Run (Samples F)
    measure_read none s = done s
    measure_read (some r) s = measure float r.ts r.power r.supply s

    sample_one-read :
        (i : ℤ) (s : Samples F) → sample_one float node i s ≡ measure_read (read_day node i) s
    unfolding sample_one
    sample_one-read i s = elim (Result-cases (node.tip_set_by_height i)) [
      | inl (e, a) ↦ ground arith
      | inr (ts, a) ↦ elim (Result-cases (node.miner_power (node.key ts))) [
        | inl (e, b) ↦ ground arith
        | inr (power, b) ↦ elim (Result-cases (get_supply node i)) [
          | inl (e, c) ↦ ground arith
          | inr (v, c) ↦ ground arith
        ]
      ]
    ]

    measure_all-add :
        (r : Option Reading) (rs : List Reading) (s : Samples F)
        → measure_all (add_reading node r rs) s ≡ (measure_read r s >>= measure_all rs)
    measure_all-add none rs s = refl
    measure_all-add (some r) rs s = refl

    sample_rounds_end :
        (rounds i to : ℕ) (s : Samples F)
        → to ≤ i
        → sample_rounds float node rounds (pos to) (pos i) s ≡ done s
    unfolding sample_rounds
    sample_rounds_end zero i to s h = refl
    sample_rounds_end (suc rounds) i to s h = ground arith

    sample_rounds_step :
        (rounds i to : ℕ) (s : Samples F)
        → i < to
        → to + epochs_in_day < bound64
        → sample_rounds float node (suc rounds) (pos to) (pos i) s ≡ (
            sample_one float node (pos i) s
            >>= sample_rounds float node rounds (pos to) (pos (i + epochs_in_day)))
    unfolding sample_rounds
    sample_rounds_step rounds i to s h fits =
        let e : add64 (pos i) (pos epochs_in_day) ≡ pos (i + epochs_in_day) =
          add64_pos i epochs_in_day (omega arith) in
        rw e (ground arith)

    -- With enough rounds the loop measures the readings of its days, in order.
    sample_rounds-days :
        (n rounds i to : ℕ) (s : Samples F)
        → n ≤ rounds
        → to ≤ i + n * epochs_in_day
        → (n ≡ 0) ⊎ (i + n * epochs_in_day < to + epochs_in_day)
        → to + epochs_in_day < bound64
        → sample_rounds float node rounds (pos to) (pos i) s
          ≡ measure_all (readings node (days n i)) s
    sample_rounds-days zero rounds i to s enough covers last fits =
        sample_rounds_end rounds i to s (omega arith)
    sample_rounds-days (suc n) zero i to s enough covers last fits = absurd (omega arith)
    sample_rounds-days (suc n) (suc rounds) i to s enough covers last fits =
        let next : i + epochs_in_day + n * epochs_in_day ≡ i + suc n * epochs_in_day =
          omega arith in
        let below : i < to = elim last [ inl z ↦ absurd (omega arith) | inr l ↦ omega arith ] in
        sample_rounds_step rounds i to s below fits
        ∙ >>=_cong (sample_one float node (pos i) s)
            (sample_rounds float node rounds (pos to) (pos (i + epochs_in_day)))
            (measure_all (readings node (days n (i + epochs_in_day))))
            (λ s'.
              sample_rounds-days n rounds (i + epochs_in_day) to s' (omega arith) (omega arith)
                (elim last [ inl z ↦ absurd (omega arith) | inr l ↦ inr (omega arith) ]) fits)
        ∙ ap (λ m. m >>= measure_all (readings node (days n (i + epochs_in_day))))
            (sample_one-read (pos i) s)
        ∙ sym
            (measure_all-add (read_day node (pos i)) (readings node (days n (i + epochs_in_day))) s)

    rounds_between : (from to : ℕ) → pos_part (pos to -ℤ pos from) ≡ to - from
    unfolding ◌-ℤ◌
    rounds_between from to = ground arith

    pub sample_rounds-readings :
        (from to : ℕ) (s : Samples F)
        → to + epochs_in_day < bound64
        → sample_rounds float node (rounds_to (pos from) (pos to)) (pos to) (pos from) s
          ≡ measure_all (readings node (days (day_count from to) from)) s
    sample_rounds-readings from to s fits =
        sample_rounds-days (day_count from to) (rounds_to (pos from) (pos to)) from to s
          (omega (arith, rounds_between from to)) (omega arith) (day_count_last from to) fits
