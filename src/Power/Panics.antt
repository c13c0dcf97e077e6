-- ===== src/Power/Panics.antt =====
-- Where `run` of cli/pow/main.go ends in a panic.
use lotus_tools.Prelude.{
  ℕ, ◌+◌, ◌-◌, ◌≤◌, ◌<◌, pos, ◌≡◌, ap, ◌∙◌, ◌↔◌, ◌⊎◌, inl, inr, [], length, get_elem?-lt, ok, Run,
  done, panic, ◌>>=◌, arith, All, bound64, dec_lt,
}
use lotus_tools.Node.{ChainTipSet, epochs_in_day}
use lotus_tools.Power.Defs.{Floats, PowerNode, Ending, print_lines, pow_run}
use lotus_tools.Power.Rows.{IsPower, IsPowered, AnyWeak, IsPowered-or_weak}
use lotus_tools.Power.Measured.{measure_all-length, measure_all_weak}
use lotus_tools.Power.Lines.{day_readings, pow_run-measure_all, print_lines_short, print_lines-runs}

module _ {F : Type 0} (float : Floats F) where
  module _ {K : Type 0} (node : PowerNode K) where
    pow_run_weak :
        (from to height : ℕ) (head : ChainTipSet)
        → node.chain_head ≡ ok head
        → head.height ≡ pos height
        → from < to
        → to + epochs_in_day < bound64
        → All IsPower (day_readings float node from to height)
        → AnyWeak (day_readings float node from to height)
        → pow_run float node (pos from) (pos to) ≡ panic
    pow_run_weak from to height head e h below fits power weak =
        pow_run-measure_all float node from to height head e h below fits
        ∙ ap (λ m. m >>= print_lines float)
            (measure_all_weak float (day_readings float node from to height) (pos 0) (pos 0) []
              power weak)

    -- With readings that are powered, a run ends in a panic or is done.
    abbrev EndsBy : ℕ → Run (Ending F) → Type 0
    EndsBy n r = ((n < 2) × (r ≡ panic)) ⊎ ((2 ≤ n) × ((x : Ending F) × (r ≡ done x)))

    pow_run_powered :
        (from to height : ℕ) (head : ChainTipSet)
        → node.chain_head ≡ ok head
        → head.height ≡ pos height
        → from < to
        → to + epochs_in_day < bound64
        → All IsPowered (day_readings float node from to height)
        → EndsBy
            (length (day_readings float node from to height))
            (pow_run float node (pos from) (pos to))
    pow_run_powered from to height head e h below fits powered =
        let rs = day_readings float node from to height in
        let (last, day, ws, measured, same) =
          measure_all-length float rs (pos 0) (pos 0) [] powered in
        let run =
          pow_run-measure_all float node from to height head e h below fits
          ∙ ap (λ m. m >>= print_lines float) measured in
        elim (dec_lt (length ws) 2) [
          | yes p ↦ inl (omega arith, run ∙ print_lines_short float node last day ws p)
          | no p ↦
              let (w1, a) = get_elem?-lt ws 1 (omega arith) in
              let (w2, b) = get_elem?-lt ws (length ws - 2) (omega arith) in
              inr (
                omega arith,
                (_, run ∙ print_lines-runs float node last day ws w1 w2 a b (omega arith)),
              )
        ]

    -- A run ends in a panic exactly when the node answers for fewer than two of its days, or when
    -- the network's power on one of them is below a TiB. The conditions: the node gives the head of
    -- the chain, at a height that is not negative; no power is negative, the range is not empty, and
    -- it ends a day below the int64 numbers.
    pub pow_run-panic_iff :
        (from to height : ℕ) (head : ChainTipSet)
        → node.chain_head ≡ ok head
        → head.height ≡ pos height
        → from < to
        → to + epochs_in_day < bound64
        → All IsPower (day_readings float node from to height)
        → (pow_run float node (pos from) (pos to) ≡ panic) ↔ (
            (length (day_readings float node from to height) < 2)
            ⊎ AnyWeak (day_readings float node from to height))
    pow_run-panic_iff from to height head e h below fits power =
        elim (IsPowered-or_weak (day_readings float node from to height)) [
          | inr weak ↦
              (λ _. inr weak, λ _. pow_run_weak from to height head e h below fits power weak)
          | inl powered ↦ elim (pow_run_powered from to height head e h below fits powered) [
            | inl (short, p) ↦ (λ _. inl short, λ _. p)
            | inr (long, (x, r)) ↦ (
              λ p. cc,
              λ c. elim c [
                | inl short ↦ absurd (omega arith)
                | inr weak ↦ pow_run_weak from to height head e h below fits power weak
              ],
            )
          ]
        ]
