-- ===== src/Power/Lines.antt =====
-- What `run` of cli/pow/main.go prints.
use lotus_tools.Prelude.{
  ℕ, ◌+◌, ◌-◌, ◌≤◌, ◌<◌, ℤ, pos, ◌≡◌, refl, ap, ◌∙◌, some, List, map, length, length-map, get_elem?,
  get_elem?-map, get_elem?-none, get_elem?-lt, ok, Run, done, panic, ◌>>=◌, if◌then◌else◌, ltb,
  leb_ℤ, false, arith, All, bound64, ◌-ℤ◌,
}
use lotus_tools.Node.{ChainTipSet, epochs_in_day}
use lotus_tools.Power.Defs.{
  Floats, Point, PowerNode, DayRow, no_samples, Ending, failed, printed, points_to_func, fit,
  print_lines, sample_rounds, rounds_to, until_head, pow_run,
}
use lotus_tools.Power.Days.{Reading, days, day_count, readings, measure_all, sample_rounds-readings}
use lotus_tools.Power.Rows.{IsPowered, IsMined, FollowFirst, FollowFirst-length}
use lotus_tools.Power.Measured.{power_point, mined_point, taken, measure_all-FollowFirst}

-- The height at which the loop stops.
abbrev pub earlier : ℕ → ℕ → ℕ
earlier to height = if ltb height to then height else to

last_but_one : (m n : ℕ) → m ≡ n → 2 ≤ n → pos m -ℤ pos 2 ≡ pos (n - 2)
unfolding ◌-ℤ◌
last_but_one m n e h = ground arith

until_head-pos : (to height : ℕ) → until_head (pos to) (pos height) ≡ pos (earlier to height)
until_head-pos to height = ground arith

from_below : (from to : ℕ) → from < to → leb_ℤ (pos to) (pos from) ≡ false
from_below from to h = ground arith

earlier-le : (to height : ℕ) → earlier to height ≤ to
earlier-le to height = ground arith

module _ {F : Type 0} (float : Floats F) where
  fit_long :
      (ws : List DayRow) (f : DayRow → Point F) (w1 w2 : DayRow)
      → get_elem? ws 1 ≡ some w1
      → get_elem? ws (length ws - 2) ≡ some w2
      → 2 ≤ length ws
      → fit float (map f ws) ≡ done (points_to_func float (f w1) (f w2))
  unfolding fit
  fit_long ws f w1 w2 a b long =
      let n = length-map f ws in
      let last : pos (length (map f ws)) -ℤ pos 2 ≡ pos (length ws - 2) = last_but_one _ _ n long in
      rw (last, get_elem?-map f ws 1 a, get_elem?-map f ws (length ws - 2) b) refl

  fit_short : (ps : List (Point F)) → length ps < 2 → fit float ps ≡ panic
  unfolding fit
  fit_short ps h = rw (get_elem?-none ps 1 (omega arith)) refl

  module _ {K : Type 0} (node : PowerNode K) where
    -- What the node answers on the days that the loop visits.
    abbrev pub day_readings : ℕ → ℕ → ℕ → List Reading
    day_readings from to height = readings node (days (day_count from (earlier to height)) from)

    abbrev after_head : ℤ → ℤ → ℤ → Run (Ending F)
    after_head from to height =
        if leb_ℤ to from
        then done (failed "from must more than to height")
        else (sample_rounds float node (rounds_to from (until_head to height))
              (until_head to height) from no_samples
            >>= print_lines float)

    pow_run-after_head :
        (from to : ℤ) (head : ChainTipSet)
        → node.chain_head ≡ ok head
        → pow_run float node from to ≡ after_head from to head.height
    unfolding pow_run
    pow_run-after_head from to head e = ground arith

    pub pow_run-measure_all :
        (from to height : ℕ) (head : ChainTipSet)
        → node.chain_head ≡ ok head
        → head.height ≡ pos height
        → from < to
        → to + epochs_in_day < bound64
        → pow_run float node (pos from) (pos to)
          ≡ (measure_all float (day_readings from to height) no_samples >>= print_lines float)
    pow_run-measure_all from to height head e h below fits =
        pow_run-after_head (pos from) (pos to) head e
        ∙ ap (after_head (pos from) (pos to)) h
        ∙ rw
            (
              from_below from to below,
              until_head-pos to height,
              sample_rounds-readings float node from (earlier to height) no_samples
                  (omega (arith, earlier-le to height)),
            )
            refl

    pub print_lines-runs :
        (last day : ℤ) (ws : List DayRow) (w1 w2 : DayRow)
        → get_elem? ws 1 ≡ some w1
        → get_elem? ws (length ws - 2) ≡ some w2
        → 2 ≤ length ws
        → print_lines float (taken float last day ws)
          ≡ done (
              printed ws
                (points_to_func float (power_point float w1) (power_point float w2))
                (points_to_func float (mined_point float w1) (mined_point float w2)))
    unfolding print_lines
    print_lines-runs last day ws w1 w2 a b long =
        rw
          (
            fit_long ws (power_point float) w1 w2 a b long,
            fit_long ws (mined_point float) w1 w2 a b long,
          )
          refl

    pub print_lines_short :
        (last day : ℤ) (ws : List DayRow)
        → length ws < 2
        → print_lines float (taken float last day ws) ≡ panic
    unfolding print_lines
    print_lines_short last day ws h =
        rw
          (fit_short (map (power_point float) ws)
            (omega (arith, length-map (power_point float) ws)))
          refl

    -- What a run prints for some readings.
    abbrev pub Prints : List Reading → Run (Ending F) → Type 0
    Prints rs r =
        (ws : List DayRow) × (w1 : DayRow) × (w2 : DayRow) × FollowFirst rs ws
        × (get_elem? ws 1 ≡ some w1)
        × (get_elem? ws (length ws - 2) ≡ some w2)
        × (r
            ≡ done (
                printed ws (points_to_func float (power_point float w1) (power_point float w2))
                  (points_to_func float (mined_point float w1) (mined_point float w2))))

    -- A run over a range of heights visits one height a day, up to the head or the end of the range,
    -- and keeps the days that the node answers for. Where there are at least two of them, each with
    -- a TiB of power or more and a positive amount mined, it returns: it prints a row for each, in
    -- order, with the node's answers and the amount mined since the row before (0 in the first),
    -- and then two lines through the second row and the last but one, of the power and of the
    -- amount mined. The conditions: the range is not empty, and it ends a day below the int64
    -- numbers.
    pub pow_run-Prints :
        (from to height : ℕ) (head : ChainTipSet)
        → node.chain_head ≡ ok head
        → head.height ≡ pos height
        → from < to
        → to + epochs_in_day < bound64
        → All IsPowered (day_readings from to height)
        → All IsMined (day_readings from to height)
        → 2 ≤ length (day_readings from to height)
        → Prints (day_readings from to height) (pow_run float node (pos from) (pos to))
    pow_run-Prints from to height head e h below fits powered mined long =
        let rs = day_readings from to height in
        let (last, day, ws, measured, follow) = measure_all-FollowFirst float rs powered mined in
        let long' : 2 ≤ length ws = omega (arith, FollowFirst-length rs ws follow) in
        let (w1, a) = get_elem?-lt ws 1 (omega arith) in
        let (w2, b) = get_elem?-lt ws (length ws - 2) (omega arith) in
        (
          ws,
          w1,
          w2,
          follow,
          a,
          b,
          pow_run-measure_all from to height head e h below fits
              ∙ ap (λ m. m >>= print_lines float) measured
              ∙ print_lines-runs last day ws w1 w2 a b long',
        )
