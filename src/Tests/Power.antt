-- ===== src/Tests/Power.antt =====
-- The power calculator over five days, of which the node does not answer for one.
use lotus_tools.Prelude.{
  ◌*◌, ◌^◌, ◌≡◌, refl, ◌↔◌, ◌<◌, ◌⊎◌, ℤ, pos, panic, ok, err, Result, length, arith, eqb_ℤ,
  if◌then◌else◌, div_ℕ, ◌-ℤ◌, ◌*ℤ◌, pos_part, codes, [], add64,
}
use lotus_tools.Node.{ChainTipSet}
use lotus_tools.Power.{
  Floats, PowerNode, pow_run, sample_rounds, sample_one, measure, print_lines, fit, mined_since,
  get_supply, big_div,
}
use lotus_tools.Power.Rows.{AnyWeak}
use lotus_tools.Power.Lines.{Prints, day_readings, pow_run-Prints}
use lotus_tools.Power.Panics.{pow_run-panic_iff}
use lotus_tools.Power.Text.{to_file}
use lotus_tools.Util.Text.{trim_left, trim_right}

-- Whole numbers in the place of floats.
abbrev whole : Floats ℤ
whole = record { of_int64 = λ z. z; sub = ◌-ℤ◌; mul = ◌*ℤ◌; div = λ a b. div_ℕ a (pos_part b) }

abbrev tip_set : ℤ → ChainTipSet
tip_set h = record { height = h; min_timestamp = 1598306400; blocks = [] }

abbrev answered : ℤ → Result ChainTipSet
answered h = if eqb_ℤ h (pos 2880) then err "rpc timeout" else ok (tip_set h)

-- The power grows by a TiB a height, and five FIL are mined for each.
abbrev node : PowerNode ℤ
node = record {
  chain_head = ok (tip_set (pos 12000));
  tip_set_by_height = answered;
  tip_set_again = answered;
  key = λ ts. ts.height;
  empty_key = pos 0;
  miner_power = λ h. ok (h *ℤ pos (2 ^ 40));
  circulating_supply = λ h. ok (record {
    vested = pos 7;
    mined = h *ℤ pos (5 * 10 ^ 18);
    burnt = pos 1;
    locked = pos 2;
    circulating = pos 4;
  });
}

pow_run-Prints_example :
    Prints whole node
      (day_readings whole node 100 14400 12000)
      (pow_run whole node (pos 100) (pos 14400))
unfolding get_supply ◌*ℤ◌
pow_run-Prints_example =
    pow_run-Prints whole node 100 14400 12000 (tip_set (pos 12000)) refl refl (omega arith)
      (omega arith) (omega arith) (omega arith) (omega arith)

-- Two days are too many to ask for where one of them is missing.
pow_run-panic_iff_example : (pow_run whole node (pos 100) (pos 2000) ≡ panic) ↔ (
    (length (day_readings whole node 100 2000 12000) < 2)
    ⊎ AnyWeak (day_readings whole node 100 2000 12000))
unfolding get_supply ◌*ℤ◌
pow_run-panic_iff_example =
    pow_run-panic_iff whole node 100 2000 12000 (tip_set (pos 12000)) refl refl (omega arith)
      (omega arith) (omega arith)

one_day_panics : pow_run whole node (pos 100) (pos 2000) ≡ panic
unfolding pow_run sample_rounds ◌-ℤ◌ sample_one measure get_supply ◌*ℤ◌ add64 print_lines fit
    big_div div_ℕ mined_since
one_day_panics = refl

amount : to_file (λ z. codes "12.5 FIL") (pos 1) ≡ codes "12.5"
unfolding to_file trim_left trim_right
amount = refl
