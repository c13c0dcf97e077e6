-- ===== src/Pool/Limits.antt =====
-- The gas limits that `MpoolClean` hands on: for an expired message and for one whose estimate
-- failed.
use lotus_tools.Prelude.{
  ℕ, ◌+◌, ◌*◌, ◌/◌, ◌≤◌, ◌<◌, ℤ, pos, String, true, ◌≡◌, ◌≢◌, none, some, ok, arith, if◌then◌else◌,
  ltb, mul64_pos, div64_pos, add64_pos, bound64, sub64, wrap64, ◌-ℤ◌, ltb_ℤ, ap, ◌∙◌, sym, pos_part,
  ◌==◌,
}
use lotus_tools.Config.{Setting}
use lotus_tools.Node.{
  Node, SectorInfo, ChainTipSet, pre_commit_sector, epochs_in_day,
  max_pre_commit_randomness_lookback,
}
use lotus_tools.Pool.Defs.{sector_epochs}
use lotus_tools.Pool.Clean.{expiry_limit, estimated_limit, has_text}

-- Whether a difference of epochs is negative.
sub64-negative :
    (a b : ℕ) → a < bound64 → b < bound64 → ltb_ℤ (sub64 (pos a) (pos b)) (pos 0) ≡ ltb a b
unfolding sub64 wrap64 ◌-ℤ◌
sub64-negative a b h k = ground arith

-- The expiry of a message of a method, counted from the epochs of its sector.
abbrev pub expiry : ℕ → ℕ → ℕ → ℕ
expiry method ticket seed =
    if method == pre_commit_sector
    then ticket + max_pre_commit_randomness_lookback
    else seed + epochs_in_day

expire_epoch-expiry :
    (node : Node) (method sector ticket seed : ℕ) {info : SectorInfo}
    → node.sectors_status sector ≡ ok info
    → info.ticket_epoch ≡ pos ticket
    → info.seed_epoch ≡ pos seed
    → ticket + 3780 < bound64
    → seed + 2880 < bound64
    → let t = sector_epochs node method sector in
      (t.expire_epoch ≡ pos (expiry method ticket seed)) × (t.error ≡ none)
unfolding sector_epochs
expire_epoch-expiry node method sector ticket seed e a b h k =
    ground (arith, add64_pos ticket 3780 h, add64_pos seed 2880 k)

-- For a message whose sector the storage miner knows, with the head of the chain at a height,
-- the limit is the one that breaks the message if the expiry lies below the height, and otherwise
-- the limit as it was. The expiry is 3780 epochs after the ticket for a pre-commit and 2880 after
-- the seed for a prove-commit. The conditions say that the epochs are not negative and fit.
pub expiry_limit-expired :
    (s : Setting) (node : Node) (method sector ticket seed height : ℕ) (limit : ℤ)
    {info : SectorInfo} {ts : ChainTipSet}
    → node.sectors_status sector ≡ ok info
    → info.ticket_epoch ≡ pos ticket
    → info.seed_epoch ≡ pos seed
    → node.chain_head ≡ ok ts
    → ts.height ≡ pos height
    → ticket + 3780 < bound64
    → seed + 2880 < bound64
    → height < bound64
    → expiry_limit s node (sector_epochs node method sector) limit
      ≡ (if ltb (expiry method ticket seed) height then s.pre_break_limit else limit)
unfolding expiry_limit
expiry_limit-expired s node method sector ticket seed height limit e a b c d h k m =
    let (f, g) = expire_epoch-expiry node method sector ticket seed e a b h k in
    let n : expiry method ticket seed < bound64 = ground arith in
    let q = sub64-negative (expiry method ticket seed) height n m in ground (arith)

-- Where the estimate fails because nothing was pre-committed, the limit that comes out is the
-- configured breaking limit with five percent on top, and not the breaking limit itself. The
-- conditions are that the breaking limit is at least 20 and that the product fits an int64.
pub estimated_limit-inflated :
    (s : Setting) (limit : ℤ) (e : String) (b : ℕ)
    → has_text e "no pre-committed" ≡ true
    → s.pre_break_limit ≡ pos b
    → 20 ≤ b
    → b * 105 < bound64
    → (estimated_limit s (limit, some e) ≡ pos (b * 105 / 100))
      × (estimated_limit s (limit, some e) ≢ s.pre_break_limit)
unfolding estimated_limit
estimated_limit-inflated s limit e b t k h fits =
    let v : estimated_limit s (limit, some e) ≡ pos (b * 105 / 100) =
      rw (t, k, mul64_pos b 105 fits) (div64_pos (b * 105) 100) in
    (v, λ same. let z : b * 105 / 100 ≡ b = ap pos_part (sym v ∙ same ∙ k) in omega arith)
