-- ===== src/Convert/Messages.antt =====
-- What the converted messages and receipts keep.
use lotus_tools.Prelude.{
  panic, ℕ, ◌≡◌, refl, Option, none, some, done, big_from_string, big_from_string-big_string, arith,
}
use lotus_tools.Node.{Cid, ChainMessage}
use lotus_tools.Convert.Defs.{
  Message, ChainReceipt, Environment, GasCost, MsgGasCost, assign, recovered, message_convert,
  fill_receipt, lotus_message_receipt_convert, gas_cost_convert,
}

-- No message's conversion panics.
abbrev pub NoPanic : {V : Type 0} → Environment V → Type 0
NoPanic env = (code : Cid) (m : ChainMessage) → message_convert env code m ≡ panic → ⊥

-- The amounts of a converted message read back as those of the message, and its numbers are kept.
pub record Keeps (m : ChainMessage) (r : Message) : Type 0 where
  pub value : big_from_string r.value ≡ some m.value
  pub gas_fee_cap : big_from_string r.gas_fee_cap ≡ some m.gas_fee_cap
  pub gas_premium : big_from_string r.gas_premium ≡ some m.gas_premium
  pub numbers : (r.version ≡ m.version) × (r.nonce ≡ m.nonce) × (r.gas_limit ≡ m.gas_limit)
  pub method : r.method ≡ m.method

-- The amounts of the gas cost read back too.
pub record KeepsCost (g : GasCost) (r : MsgGasCost) : Type 0 where
  pub gas_used : big_from_string r.gas_used ≡ some g.gas_used
  pub base_fee_burn : big_from_string r.base_fee_burn ≡ some g.base_fee_burn
  pub over_estimation_burn : big_from_string r.over_estimation_burn ≡ some g.over_estimation_burn
  pub miner_tip : big_from_string r.miner_tip ≡ some g.miner_tip
  pub total_cost : big_from_string r.total_cost ≡ some g.total_cost
  pub refund : big_from_string r.refund ≡ some g.refund
  pub miner_penalty : big_from_string r.miner_penalty ≡ some g.miner_penalty

module _ {V : Type 0} (env : Environment V) where
  -- Whenever a message is converted, the decimal texts of its value, fee cap and premium read
  -- back as the amounts of the message, and its version, nonce, gas limit and method are kept.
  pub message_convert-Keeps :
      (code : Cid) (m : ChainMessage) {r : Message}
      → message_convert env code m ≡ done r
      → Keeps m r
  unfolding message_convert
  message_convert-Keeps code m {r} h = ground (
    arith,
    big_from_string-big_string m.value,
    big_from_string-big_string m.gas_fee_cap,
    big_from_string-big_string m.gas_premium,
  )

  -- The amounts of a converted gas cost read back as those of the node's.
  pub gas_cost_convert-KeepsCost : (g : GasCost) → KeepsCost g (gas_cost_convert env g)
  unfolding gas_cost_convert
  gas_cost_convert-KeepsCost g = record {
    gas_used = big_from_string-big_string _;
    base_fee_burn = big_from_string-big_string _;
    over_estimation_burn = big_from_string-big_string _;
    miner_tip = big_from_string-big_string _;
    total_cost = big_from_string-big_string _;
    refund = big_from_string-big_string _;
    miner_penalty = big_from_string-big_string _;
  }

  -- Every receipt is converted to no receipt: setting the first field goes through a nil pointer,
  -- and the recovery from that panic returns nil.
  pub lotus_message_receipt_convert-none :
      (code : Cid) (method : ℕ) (receipt : Option ChainReceipt)
      → lotus_message_receipt_convert env code method receipt ≡ none
  unfolding lotus_message_receipt_convert fill_receipt assign recovered
  lotus_message_receipt_convert-none code method none = refl
  lotus_message_receipt_convert-none code method (some r) = refl
