-- ===== src/FeeController/Thresholds.antt =====
-- `checkMsgTooMore` and `checkMsgTooLow`.
use native.Mathlib.Nat.{mul-le-mul_left, mul-le-mul_right}
use lotus_tools.Prelude.{
  ℕ, ℤ, pos, ◌-◌, ◌*◌, ◌/◌, ◌≤◌, ◌<◌, ◌≡◌, ◌↔◌, ◌⊎◌, true, false, arith, bound64, mul64_pos,
  div64_pos, sub64_pos, mul64,
}
use lotus_tools.Config.{Setting}
use lotus_tools.FeeController.Defs.{
  check_msg_too_more, check_msg_too_low, max_free, actual_free, extra_free,
}

-- The pool is never found too full and too empty at once, so that one round changes the cap at
-- most once.
pub check_msg_exclusive :
    (s : Setting) (total : ℤ)
    → check_msg_too_more s total ≡ true
    → check_msg_too_low s total ≡ false
unfolding check_msg_too_more check_msg_too_low
check_msg_exclusive s total h = ground arith

-- A configuration without negative numbers, in which the percentage is at most 100 and the
-- products of the capacity estimate fit an int64.
pub record Natural (s : Setting) (once percent keep low high : ℕ) : Type 0 where
  pub once_max : s.once_max ≡ pos once
  pub base_fee_percent : s.base_fee_percent ≡ pos percent
  pub time_keep : s.time_keep ≡ pos keep
  pub threshold_low : s.mpool_threshold_low ≡ pos low
  pub threshold_high : s.mpool_threshold_high ≡ pos high
  pub percent-le : percent ≤ 100
  pub fits : once * 120 * 100 < bound64
  pub fits_keep : once * 120 * keep < bound64

-- The messages that can be moved beyond the usual ones in an hour.
abbrev pub spare : ℕ → ℕ → ℕ
spare once percent = once * 120 - once * 120 * percent / 100

module _ (s : Setting) (once percent keep low high : ℕ)
    (h : Natural s once percent keep low high) where
  max_free-once : max_free s ≡ pos (once * 120)
  unfolding max_free
  max_free-once = rw h.once_max (mul64_pos once 120 (omega arith))

  actual_free-percent : actual_free s ≡ pos (once * 120 * percent / 100)
  unfolding actual_free
  actual_free-percent =
      let t : once * 120 * percent ≤ once * 120 * 100 = mul-le-mul_left (once * 120) h.percent-le in
      let e = mul64_pos (once * 120) percent (omega arith) in
      rw (max_free-once, h.base_fee_percent, e, div64_pos)

  extra_free-spare : extra_free s ≡ pos (spare once percent)
  unfolding extra_free
  extra_free-spare =
      let t : once * 120 * percent ≤ once * 120 * 100 = mul-le-mul_left (once * 120) h.percent-le in
      rw (max_free-once, actual_free-percent)
        (sub64_pos (once * 120) (once * 120 * percent / 100) (omega arith) (omega arith))

  quota : mul64 (extra_free s) s.time_keep ≡ pos (spare once percent * keep)
  quota =
      let t : spare once percent * keep ≤ once * 120 * keep = mul-le-mul_right keep (omega arith) in
      rw (extra_free-spare, h.time_keep) (mul64_pos (spare once percent) keep (omega arith))

  -- Where the settings are natural numbers, the percentage is at most 100 and the products fit a
  -- machine integer, the pool counts as too full exactly when it holds at least the lower threshold
  -- and either exceeds a positive upper threshold or exceeds the spare capacity of the hours that it
  -- may take; and as too empty exactly when it holds less than the lower threshold.
  pub check_msg_too_more_iff :
      (total : ℕ)
      → ((check_msg_too_more s (pos total) ≡ true)
          ↔ ((low ≤ total) × (((0 < high) × (high < total)) ⊎ (spare once percent * keep < total))))
        × ((check_msg_too_low s (pos total) ≡ true) ↔ (total < low))
  unfolding check_msg_too_more check_msg_too_low
  check_msg_too_more_iff total = ground (arith, quota, h.threshold_low, h.threshold_high)
