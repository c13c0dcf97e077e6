-- ===== src/Improve/Errors.antt =====
-- The ends of `doImprove` other than a push: the premium's arithmetic, and the panic
-- where no chat robot is configured.
use native.Mathlib.Nat.{mul-le-mul_right}
use lotus_tools.Prelude.{
  ℕ, zero, suc, refl, ap, ℤ, pos, ◌⊎◌, inl, inr, dec_lt, ◌+◌, ◌*◌, ◌/◌, ◌≤◌, ◌≡◌, ◌↔◌, none, panic,
  arith, ◌<ℤ◌, ◌*ℤ◌, div_ℕ,
}
use lotus_tools.Config.{Setting, Config}
use lotus_tools.Node.{ChainMessage, SignedMessage, Node}
use lotus_tools.Improve.Defs.{next_limit, skip, raise_fees, submit, robot_url, do_improve}

-- No part of the percentage is lost.
exact_premium :
    (p seed : ℕ) → (p / 100 * seed * 100 ≡ p * seed) ↔ ((seed ≡ 0) ⊎ (p / 100 * 100 ≡ p))
exact_premium p zero = (λ h. inl refl, λ h. omega arith)
exact_premium p (suc k) = (
  λ h. inr (elim (dec_lt (p / 100 * 100) p) [
    | yes less ↦
        let t : suc (p / 100 * 100) * suc k ≤ p * suc k = mul-le-mul_right (suc k) less in
        absurd (omega arith)
    | no more ↦ omega arith
  ]),
  λ h. elim h [
    | inl z ↦ absurd (omega arith)
    | inr e ↦ let t : p / 100 * 100 * suc k ≡ p * suc k = ap (λ x. x * suc k) e in omega arith
  ],
)

-- A natural premium p with a natural seed becomes p/100 rounded down times the seed. That is at most
-- the seed's percentage of p, and it is that percentage exactly for a seed of 0 or a p that 100
-- divides; a hundred times the result is at most 99 seeds short of p times the seed.
pub raise_fees-premium :
    (s : Setting) (m : ChainMessage) (limit fee : ℤ) (p seed : ℕ)
    → m.gas_premium ≡ pos p
    → s.premium_seed ≡ pos seed
    → ((raise_fees s m limit fee).gas_premium ≡ pos (p / 100 * seed))
      × (p / 100 * seed * 100 ≤ p * seed)
      × (p * seed ≤ p / 100 * seed * 100 + 99 * seed)
      × ((p / 100 * seed * 100 ≡ p * seed) ↔ ((seed ≡ 0) ⊎ (p / 100 * 100 ≡ p)))
unfolding raise_fees div_ℕ ◌*ℤ◌
raise_fees-premium s m limit fee p seed e f = (
  rw (e, f) (ground arith),
  (let t : p / 100 * 100 * seed ≤ p * seed = mul-le-mul_right seed (omega arith) in omega arith),
  (let t : p * seed ≤ (p / 100 * 100 + 99) * seed = mul-le-mul_right seed (omega arith) in
      omega arith),
  exact_premium p seed,
)

-- A call reaches the end of the function with a premium above the configured one.
abbrev pub IsExcessive : Config → SignedMessage → ℤ → ℤ → Type 0
IsExcessive c lm limit fee =
    let l = next_limit c.setting lm.message limit in
    (skip c.setting lm.message l fee ≡ none)
    × (c.setting.limit_max_premium <ℤ (raise_fees c.setting lm.message l fee).gas_premium)

submit-panic_iff :
    (c : Config) (node : Node) (m : ChainMessage)
    → c.alert ≡ none
    → (submit c node m ≡ panic) ↔ (c.setting.limit_max_premium <ℤ m.gas_premium)
unfolding submit robot_url
submit-panic_iff c node m e = ground arith

do_improve-panic :
    (c : Config) (node : Node) (lm : SignedMessage) (limit fee : ℤ)
    → let l = next_limit c.setting lm.message limit in
      (do_improve c node lm limit fee ≡ panic) ↔ (
        (skip c.setting lm.message l fee ≡ none)
        × (submit c node (raise_fees c.setting lm.message l fee) ≡ panic))
unfolding do_improve
do_improve-panic c node lm limit fee = ground arith

-- Where the configuration has no alert section, as the defaults have none, `doImprove` panics exactly
-- when it reaches the premium check with a premium above the configured one.
pub do_improve-panic_iff :
    (c : Config) (node : Node) (lm : SignedMessage) (limit fee : ℤ)
    → c.alert ≡ none
    → (do_improve c node lm limit fee ≡ panic) ↔ IsExcessive c lm limit fee
do_improve-panic_iff c node lm limit fee e =
    let l = next_limit c.setting lm.message limit in
    let a = do_improve-panic c node lm limit fee in
    let b = submit-panic_iff c node (raise_fees c.setting lm.message l fee) e in
    (λ h. let (x, y) = a.0 h in (x, b.0 y), λ h. a.1 (h.0, b.1 h.1))
