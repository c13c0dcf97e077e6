-- ===== src/Power/Measured.antt =====
-- What the loop of cli/pow/main.go makes of its readings.
use lotus_tools.Prelude.{
  suc, ℤ, pos, ◌≡◌, refl, ap, ◌∙◌, List, [], ◌∷◌, ◌++◌, map, map-append, append_assoc, append-nil,
  Run, done, panic, arith, All, length, ◌<ℤ◌, div_ℕ, wrap64, inl, inr,
}
use lotus_tools.Power.Defs.{
  Floats, Point, Samples, DayRow, no_samples, measure, mined_since, tebi, filecoin_precision,
}
use lotus_tools.Power.Days.{Reading, measure_all}
use lotus_tools.Power.Rows.{
  row_of, IsPower, IsPowered, IsMined, AnyWeak, big_div_powered, big_div_weak, FollowFirst, Follow,
  mined_since_positive, ≤ℤ_cases,
}

module _ {F : Type 0} (float : Floats F) where
  abbrev pub power_point : DayRow → Point F
  power_point w = record { x = float.of_int64 w.height; y = float.of_int64 (wrap64 w.power_t) }

  abbrev pub mined_point : DayRow → Point F
  mined_point w = record {
    x = float.of_int64 w.height;
    y = float.of_int64 (wrap64 (div_ℕ w.day_mined filecoin_precision));
  }

  -- The variables after some rows.
  abbrev pub taken : ℤ → ℤ → List DayRow → Samples F
  taken last day ws = record {
    last_mined = last;
    one_day_mined = day;
    power_points = map power_point ws;
    mined_points = map mined_point ws;
    rows = ws;
  }

  pub measure_powered :
      (r : Reading) (last day : ℤ) (ws : List DayRow)
      → IsPowered r
      → (per_t : ℤ) × (measure float r.ts r.power r.supply (taken last day ws)
          ≡ done (
              taken r.supply.mined
                (mined_since last day r.supply.mined)
                (ws ++ row_of r (mined_since last day r.supply.mined) per_t ∷ [])))
  unfolding measure
  measure_powered r last day ws h =
      let today = mined_since last day r.supply.mined in
      let (per_t, e) = big_div_powered today r.power h in
      let w = row_of r today per_t in
      (per_t, rw (e, map-append power_point ws (w ∷ []), map-append mined_point ws (w ∷ [])) refl)

  -- What measuring the readings rs after the rows ws gives.
  abbrev pub Measures : (List DayRow → Type 0) → List DayRow → Run (Samples F) → Type 0
  Measures P ws r =
      (last day : ℤ) × (new : List DayRow) × (r ≡ done (taken last day (ws ++ new))) × P new

  pub measure_all_step :
      (r : Reading) (rs : List Reading) (s s' : Samples F)
      → measure float r.ts r.power r.supply s ≡ done s'
      → measure_all float (r ∷ rs) s ≡ measure_all float rs s'
  measure_all_step r rs s s' e = rw e refl

  measure_all-Follow :
      (rs : List Reading) (last day : ℤ) (ws : List DayRow)
      → All IsPowered rs
      → All IsMined rs
      → pos 0 <ℤ last
      → Measures (Follow last rs) ws (measure_all float rs (taken last day ws))
  measure_all-Follow [] last day ws powered mined p = (last, day, [], rw append-nil refl, tt)
  measure_all-Follow (r ∷ rs) last day ws (h, powered) (m, mined) p =
      let today = mined_since last day r.supply.mined in
      let (per_t, e) = measure_powered r last day ws h in
      let w = row_of r today per_t in
      let (last', day', new, e', follow) =
        measure_all-Follow rs r.supply.mined today (ws ++ w ∷ []) powered mined m in
      (
        last',
        day',
        w ∷ new,
        measure_all_step r rs (taken last day ws) (taken r.supply.mined today (ws ++ w ∷ [])) e
            ∙ e'
            ∙ ap (λ xs. done (taken last' day' xs)) (append_assoc ws (w ∷ []) new),
        ((refl, refl, refl, refl), mined_since_positive last day r.supply.mined p, follow),
      )

  -- Where every reading has at least a TiB of power and a positive amount mined, the loop's
  -- variables are those of rows that follow the readings.
  pub measure_all-FollowFirst :
      (rs : List Reading)
      → All IsPowered rs
      → All IsMined rs
      → Measures (FollowFirst rs) [] (measure_all float rs no_samples)
  measure_all-FollowFirst [] powered mined = (pos 0, pos 0, [], refl, tt)
  measure_all-FollowFirst (r ∷ rs) (h, powered) (m, mined) =
      let (per_t, e) = measure_powered r (pos 0) (pos 0) [] h in
      let w = row_of r (mined_since (pos 0) (pos 0) r.supply.mined) per_t in
      let (last', day', new, e', follow) =
        measure_all-Follow rs r.supply.mined (mined_since (pos 0) (pos 0) r.supply.mined) (w ∷ [])
          powered mined m in
      (
        last',
        day',
        w ∷ new,
        measure_all_step r rs no_samples
              (taken r.supply.mined (mined_since (pos 0) (pos 0) r.supply.mined) (w ∷ [])) e
            ∙ e',
        ((refl, refl, refl, refl), unfold mined_since in refl, follow),
      )

  -- Whatever is mined, the readings with at least a TiB of power give a row each.
  pub measure_all-length :
      (rs : List Reading) (last day : ℤ) (ws : List DayRow)
      → All IsPowered rs
      → Measures (λ new. length new ≡ length rs) ws (measure_all float rs (taken last day ws))
  measure_all-length [] last day ws powered = (last, day, [], rw append-nil refl, refl)
  measure_all-length (r ∷ rs) last day ws (h, powered) =
      let today = mined_since last day r.supply.mined in
      let (per_t, e) = measure_powered r last day ws h in
      let w = row_of r today per_t in
      let (last', day', new, e', same) =
        measure_all-length rs r.supply.mined today (ws ++ w ∷ []) powered in
      (
        last',
        day',
        w ∷ new,
        measure_all_step r rs (taken last day ws) (taken r.supply.mined today (ws ++ w ∷ [])) e
            ∙ e'
            ∙ ap (λ xs. done (taken last' day' xs)) (append_assoc ws (w ∷ []) new),
        ap suc same,
      )

  measure_weak :
      (r : Reading) (s : Samples F)
      → IsPower r
      → r.power <ℤ pos tebi
      → measure float r.ts r.power r.supply s ≡ panic
  unfolding measure
  measure_weak r s h l =
      rw (big_div_weak (mined_since s.last_mined s.one_day_mined r.supply.mined) r.power h l) refl

  -- A reading with less ends the process.
  pub measure_all_weak :
      (rs : List Reading) (last day : ℤ) (ws : List DayRow)
      → All IsPower rs
      → AnyWeak rs
      → measure_all float rs (taken last day ws) ≡ panic
  measure_all_weak [] last day ws h weak = absurd weak
  measure_all_weak (r ∷ rs) last day ws (h, hs) weak = elim (≤ℤ_cases (pos tebi) r.power) [
    | inl p ↦
        let today = mined_since last day r.supply.mined in
        let (per_t, e) = measure_powered r last day ws p in
        let w = row_of r today per_t in
        measure_all_step r rs (taken last day ws) (taken r.supply.mined today (ws ++ w ∷ [])) e
        ∙ measure_all_weak rs r.supply.mined today (ws ++ w ∷ []) hs
            (elim weak [ inl l ↦ absurd (omega arith) | inr ls ↦ ls ])
    | inr l ↦ rw (measure_weak r (taken last day ws) h l) refl
  ]
