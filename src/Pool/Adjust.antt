-- ===== src/Pool/Adjust.antt =====
-- The end of `syncMsg`: the cap after one round.
use lotus_tools.Prelude.{
  ℕ, ℤ, pos, ◌*◌, ◌≤◌, ◌<◌, ◌≡◌, ◌⊎◌, Bool, true, false, some, inl, inr, Run, done, length,
  Bool-cases, big_from_string, ap, ◌∙◌,
}
use lotus_tools.Config.{Setting}
use lotus_tools.FeeController.{FeeState, get_next_fee_cap, check_msg_too_more, check_msg_too_low}
use lotus_tools.FeeController.Cap.{InBounds, reset_base_fee_cap-InBounds}
use lotus_tools.FeeController.NextCap.{
  IsLong, get_next_fee_cap_short, get_next_fee_cap-HasRank, get_next_fee_cap_max,
}
use lotus_tools.FeeController.Thresholds.{check_msg_exclusive}
use lotus_tools.Pool.Sync.{raise_if_too_more, adjust_if_too_low, adjust}

-- A queue for which `getNextFeeCap` returns at this percentage: one that is short, or one of
-- which the percentage is at least one fee.
abbrev pub IsUsable : ℕ → FeeState → Type 0
IsUsable percent f = (length f.fee_queue < 10) ⊎ (IsLong f × (100 ≤ length f.fee_queue * percent))

get_next_fee_cap-returns :
    (percent : ℕ) (needmax : Bool) (f : FeeState)
    → IsUsable percent f
    → (v : ℤ) × (get_next_fee_cap (pos percent) needmax f ≡ done v)
get_next_fee_cap-returns percent needmax f (inl short) =
    (f.feecap, get_next_fee_cap_short (pos percent) needmax f short)
get_next_fee_cap-returns percent true f (inr (long, enough)) =
    let (v, e, r) = get_next_fee_cap_max (pos percent) f long in (v, e)
get_next_fee_cap-returns percent false f (inr (long, enough)) =
    let (v, e, r) = get_next_fee_cap-HasRank percent f long enough in (v, e)

module _ (s : Setting) (f : FeeState) {lo : ℤ} (percent : ℕ)
    (e : big_from_string s.base_fee ≡ some lo) (k : s.base_fee_percent ≡ pos percent)
    (v : InBounds lo f) (usable : IsUsable percent f) where
  -- What a step with the result r gives: a state with its cap in the bounds.
  abbrev Lands : Run FeeState → Type 0
  Lands r = (q : FeeState) × (r ≡ done q) × InBounds lo q

  raised : (total : ℤ) → check_msg_too_more s total ≡ true → Lands (raise_if_too_more s total f)
  unfolding raise_if_too_more
  raised total more =
      let (cap, c) = get_next_fee_cap-returns percent true f usable in
      let c' = ap (λ z. get_next_fee_cap z true f) k ∙ c in
      let (q, r, inside) = reset_base_fee_cap-InBounds s cap f e v in (q, rw (more, c') r, inside)

  adjusted : (total : ℤ) → check_msg_too_low s total ≡ true → Lands (adjust_if_too_low s total f)
  unfolding adjust_if_too_low
  adjusted total low =
      let (cap, c) = get_next_fee_cap-returns percent false f usable in
      let c' = ap (λ z. get_next_fee_cap z false f) k ∙ c in
      let (q, r, inside) = reset_base_fee_cap-InBounds s cap f e v in (q, rw (low, c') r, inside)

  -- With a configured minimum that parses, a percentage that is not negative, a cap within its
  -- bounds and a usable queue, the adjustment at the end of a round returns for any number of
  -- messages, and the cap is within the bounds afterwards.
  pub adjust-InBounds : (total : ℤ) → (q : FeeState) × (adjust s total f ≡ done q) × InBounds lo q
  unfolding adjust raise_if_too_more adjust_if_too_low
  adjust-InBounds total = elim (Bool-cases (check_msg_too_more s total)) [
    | inl more ↦
        let (q, r, inside) = raised total more in
        let low = check_msg_exclusive s total more in (q, rw (r, low), inside)
    | inr few ↦ elim (Bool-cases (check_msg_too_low s total)) [
      | inl low ↦ let (q, r, inside) = adjusted total low in (q, rw few r, inside)
      | inr enough ↦ (f, rw (few, enough), v)
    ]
  ]
