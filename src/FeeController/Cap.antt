-- ===== src/FeeController/Cap.antt =====
-- `ResetBaseFeeCap`: the cap stays between the configured minimum and maximum.
use lotus_tools.Prelude.{ℤ, some, ◌≡◌, ◌⊎◌, done, ◌≤ℤ◌, ◌<ℤ◌, arith, big_from_string}
use lotus_tools.Config.{Setting}
use lotus_tools.FeeController.Defs.{FeeState, reset_base_fee_cap, parsed, clamp_cap, install_cap}

-- The cap lies between the configured minimum and the maximum.
pub record InBounds (lo : ℤ) (p : FeeState) : Type 0 where
  pub above_min : lo ≤ℤ p.feecap
  pub below_max : p.feecap ≤ℤ p.max_feecap

-- What it means that `raised` is the larger of two integers.
abbrev pub IsMax : ℤ → ℤ → ℤ → Type 0
IsMax a b raised = (a ≤ℤ raised) × (b ≤ℤ raised) × ((raised ≡ a) ⊎ (raised ≡ b))

clamp_cap-IsMax : (cap lo : ℤ) → IsMax lo cap (clamp_cap cap lo)
unfolding clamp_cap
clamp_cap-IsMax cap lo = ground arith

install_cap-InBounds :
    (lo cap : ℤ) (p : FeeState) → lo ≤ℤ cap → InBounds lo p → InBounds lo (install_cap cap p)
unfolding install_cap
install_cap-InBounds lo cap p h v = ground arith

reset_base_fee_cap-parsed :
    (s : Setting) (cap : ℤ) (p : FeeState) {lo : ℤ}
    → big_from_string s.base_fee ≡ some lo
    → reset_base_fee_cap s cap p ≡ done (install_cap (clamp_cap cap lo) p)
unfolding reset_base_fee_cap parsed
reset_base_fee_cap-parsed s cap p e = ground arith

-- With a configured minimum that parses, `ResetBaseFeeCap` returns, and whatever value it is
-- called with, a cap between the minimum and the maximum is so afterwards.
pub reset_base_fee_cap-InBounds :
    (s : Setting) (cap : ℤ) (p : FeeState) {lo : ℤ}
    → big_from_string s.base_fee ≡ some lo
    → InBounds lo p
    → (q : FeeState) × (reset_base_fee_cap s cap p ≡ done q) × InBounds lo q
reset_base_fee_cap-InBounds s cap p {lo} e v = (
  install_cap (clamp_cap cap lo) p,
  reset_base_fee_cap-parsed s cap p e,
  install_cap-InBounds lo (clamp_cap cap lo) p (clamp_cap-IsMax cap lo).0 v,
)

-- What the call leaves behind: with `raised` the larger of the value and the minimum, the cap is
-- `raised` if that is at most the maximum, and only the gauge changes beside it; otherwise the state
-- is what it was.
abbrev pub Installs : ℤ → FeeState → FeeState → Type 0
Installs raised p q =
    ((raised ≤ℤ p.max_feecap) × (q ≡ record p { feecap = raised; gauge = q.gauge }))
    ⊎ ((p.max_feecap <ℤ raised) × (q ≡ p))

install_cap-Installs : (cap : ℤ) (p : FeeState) → Installs cap p (install_cap cap p)
unfolding install_cap
install_cap-Installs cap p = ground arith

-- With a configured minimum that parses, `ResetBaseFeeCap` sets the cap to the larger of its
-- argument and the minimum if that does not exceed the maximum, changes nothing else but the gauge,
-- and otherwise changes nothing.
pub reset_base_fee_cap-Installs :
    (s : Setting) (cap : ℤ) (p : FeeState) {lo : ℤ}
    → big_from_string s.base_fee ≡ some lo
    → (raised : ℤ) × IsMax lo cap raised
      × ((q : FeeState) × (reset_base_fee_cap s cap p ≡ done q) × Installs raised p q)
reset_base_fee_cap-Installs s cap p {lo} e = (
  clamp_cap cap lo,
  clamp_cap-IsMax cap lo,
  (
    install_cap (clamp_cap cap lo) p,
    reset_base_fee_cap-parsed s cap p e,
    install_cap-Installs (clamp_cap cap lo) p,
  ),
)
