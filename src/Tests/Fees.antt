-- ===== src/Tests/Fees.antt =====
-- The fee controller on the default configuration.
use lotus_tools.Prelude.{
  suc, ◌*◌, ◌≤◌, ◌<◌, ℤ, pos, ◌≡◌, refl, ◌↔◌, ◌⊎◌, inr, true, false, some, [], ◌∷◌, done, panic,
  arith, keep_last, big_from_string, mul64, div64, sub64, ◌-ℤ◌, ◌*ℤ◌, wrap64, quot_ℕ,
}
use lotus_tools.Config.{Setting}
use lotus_tools.FeeController.{
  FeeState, less, insert_sorted, sort, reset_base_fee_cap, period, rank, get_next_fee_cap,
  check_msg_too_more, check_msg_too_low, cap_percent,
}
use lotus_tools.FeeController.Cap.{IsMax, Installs, reset_base_fee_cap-Installs}
use lotus_tools.FeeController.Queue.{window, add_fees, add_fees-window}
use lotus_tools.FeeController.NextCap.{
  IsRanked, share, get_next_fee_cap-HasRank, get_next_fee_cap-panic_iff,
}
use lotus_tools.FeeController.Thresholds.{Natural, spare, check_msg_too_more_iff}
use lotus_tools.Tests.Data.{setting, fees, observed}

abbrev full : FeeState
full = record fees { fee_queue = observed }

sorted : sort (pos 3 ∷ pos 1 ∷ pos 2 ∷ []) ≡ pos 1 ∷ pos 2 ∷ pos 3 ∷ []
unfolding sort insert_sorted less
sorted = refl

base_fee : big_from_string setting.base_fee ≡ some (pos 2000000000)
unfolding big_from_string
base_fee = refl

reset_base_fee_cap-Installs_example :
    (raised : ℤ) × IsMax (pos 2000000000) (pos 5000000000) raised
    × ((q : FeeState) × (reset_base_fee_cap setting (pos 5000000000) fees ≡ done q)
        × Installs raised fees q)
reset_base_fee_cap-Installs_example =
    reset_base_fee_cap-Installs setting (pos 5000000000) fees base_fee

period_default : period setting ≡ pos 20000000000
unfolding period mul64 ◌*ℤ◌ wrap64
period_default = refl

abbrev every_half_hour : Setting
every_half_hour = record setting { refresh_base_fee = pos 1800 }

positive_period : suc 0 ≤ 1800000000000
positive_period = omega arith

add_fees-window_example :
    add_fees every_half_hour (pos 1 ∷ pos 2 ∷ pos 3 ∷ pos 4 ∷ []) fees
    ≡ done (record fees {
      fee_queue = keep_last (suc (window every_half_hour)) (pos 1 ∷ pos 2 ∷ pos 3 ∷ pos 4 ∷ []);
    })
unfolding period mul64 ◌*ℤ◌ wrap64
add_fees-window_example =
    add_fees-window every_half_hour (pos 1 ∷ pos 2 ∷ pos 3 ∷ pos 4 ∷ []) [] fees positive_period
      refl

get_next_fee_cap-HasRank_example :
    (v : ℤ) × (get_next_fee_cap (pos 80) false full ≡ done v) × IsRanked (share 10 80) v observed
get_next_fee_cap-HasRank_example =
    get_next_fee_cap-HasRank 80 full (omega arith, omega arith) (omega arith)

-- Eighty percent of the fees 10, 20, … 100 is 80.
next_cap : get_next_fee_cap (pos 80) false full ≡ done (pos 80)
unfolding get_next_fee_cap sort insert_sorted less rank cap_percent mul64 ◌*ℤ◌ wrap64 div64 quot_ℕ
    sub64 ◌-ℤ◌
next_cap = refl

get_next_fee_cap-panic_iff_example : (get_next_fee_cap (pos 9) false full ≡ panic) ↔ (10 * 9 < 100)
get_next_fee_cap-panic_iff_example = get_next_fee_cap-panic_iff 9 full (omega arith, omega arith)

Natural-default : Natural setting 2 80 1 20 0
Natural-default = record {
  once_max = refl;
  base_fee_percent = refl;
  time_keep = refl;
  threshold_low = refl;
  threshold_high = refl;
  percent-le = omega arith;
  fits = omega arith;
  fits_keep = omega arith;
}

check_msg_too_more_iff_example :
    ((check_msg_too_more setting (pos 49) ≡ true)
      ↔ ((20 ≤ 49) × (((0 < 0) × (0 < 49)) ⊎ (spare 2 80 * 1 < 49))))
    × ((check_msg_too_low setting (pos 49) ≡ true) ↔ (49 < 20))
check_msg_too_more_iff_example = check_msg_too_more_iff setting 2 80 1 20 0 Natural-default 49

check_msg_too_more_49 : check_msg_too_more setting (pos 49) ≡ true
unfolding check_msg_too_more
check_msg_too_more_49 = check_msg_too_more_iff_example.0.1 (omega arith, inr (omega arith))
