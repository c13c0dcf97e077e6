-- ===== src/Convert/Defs.antt =====
-- The documents of types/message.go and the conversion of messages, receipts and results.
use lotus_tools.Prelude.{
  ℕ, ℤ, String, Option, none, some, Run, done, panic, ◌>>=◌, ok, err, big_string, codes,
}
use lotus_tools.Node.{Address, Cid, ChainMessage}
use lotus_tools.Stmgr.{Bytes, MethodsMap, Codec, plain, parse_param, json_return, get_method}
use lotus_tools.Convert.Json.{
  Decoder, get_sector_number_from_param, get_seal_rand_epoch_from_param, get_sector_length,
}

pub record Message : Type 0 where
  pub version : ℕ
  pub to : String
  pub from : String
  pub nonce : ℕ
  pub value : String
  pub gas_limit : ℤ
  pub gas_fee_cap : String
  pub gas_premium : String
  pub method : ℕ
  pub params : String
  pub sector_number : ℕ
  pub seal_rand_epoch : ℤ
  pub sector_length : ℤ
  pub cid : String
  pub method_str : Bytes
  pub code_str : Bytes

-- `duration` is in nanoseconds; a receipt's `Return` is text.
pub record MessageReceipt : Type 0 where
  pub exit_code : ℤ
  pub return : String
  pub gas_used : ℤ

pub record MsgGasCost : Type 0 where
  pub gas_used : String
  pub base_fee_burn : String
  pub over_estimation_burn : String
  pub miner_tip : String
  pub total_cost : String
  pub refund : String
  pub miner_penalty : String

-- The node's receipt, `types.MessageReceipt` of lotus.
pub record ChainReceipt : Type 0 where
  pub exit_code : ℤ
  pub return : Bytes
  pub gas_used : ℤ

pub record GasCost : Type 0 where
  pub gas_used : ℤ
  pub base_fee_burn : ℤ
  pub over_estimation_burn : ℤ
  pub miner_tip : ℤ
  pub total_cost : ℤ
  pub refund : ℤ
  pub miner_penalty : ℤ

-- How the node's libraries print addresses and identifiers and name a message, and what
-- `multihash.Decode` finds in a code's hash (`none` is an error).
pub record Naming : Type 0 where
  pub address_string : Address → String
  pub cid_string : Cid → String
  pub message_cid : ChainMessage → Cid
  pub digest : Cid → Option Bytes

-- What the conversions use of other packages.
pub record Environment (V : Type 0) : Type 0 where
  pub codec : Codec V
  pub decoder : Decoder
  pub naming : Naming
  pub table : MethodsMap

-- stmgr.CodeStr: the digest of the code's hash.
unfoldable pub code_str : Naming → Cid → Bytes
code_str naming c = elim (naming.digest c) [ none ↦ codes "NA" | some digest ↦ digest ]

-- A pointer receiver's field is set; through a nil pointer that panics.
unfoldable pub assign {ℓ} : {A : Type ℓ} → (A → A) → Option A → Run (Option A)
assign f none = panic
assign f (some a) = done (some (f a))

-- `defer func() { if recover() != nil { msgRct = nil } }()`
unfoldable pub recovered {ℓ} : {A : Type ℓ} → Run (Option A) → Option A
recovered (done r) = r
recovered panic = none

module _ {V : Type 0} (env : Environment V) where
  open env use {codec, decoder, naming, table}

  unfoldable pub param_text : Cid → ChainMessage → String
  param_text code m = elim (parse_param codec table code (plain m)) [ ok text ↦ text | err _ ↦ "" ]

  -- `LotusMessageConvert` of a message that is not nil. A panic is a sector number or an epoch
  -- that is not a JSON number.
  unfoldable pub message_convert : Cid → ChainMessage → Run Message
  message_convert code m = do
    let pa = param_text code m
    sector ← get_sector_number_from_param decoder m.method pa
    epoch ← get_seal_rand_epoch_from_param decoder m.method pa
    len ← get_sector_length decoder m.method pa
    done (record {
      version = m.version;
      to = naming.address_string m.to;
      from = naming.address_string m.from;
      nonce = m.nonce;
      value = big_string m.value;
      gas_limit = m.gas_limit;
      gas_fee_cap = big_string m.gas_fee_cap;
      gas_premium = big_string m.gas_premium;
      method = m.method;
      params = pa;
      sector_number = sector;
      seal_rand_epoch = epoch;
      sector_length = len;
      cid = naming.cid_string (naming.message_cid m);
      method_str = get_method table code m.method;
      code_str = code_str naming code;
    })

  unfoldable pub lotus_message_convert : Cid → Option ChainMessage → Run (Option Message)
  lotus_message_convert code none = done none
  lotus_message_convert code (some m) = do r ← message_convert code m; done (some r)

  unfoldable pub return_text : Cid → ℕ → Bytes → String
  return_text code method ret = elim (json_return codec table code method ret) [
    | ok text ↦ text
    | err _ ↦ ""
  ]

  -- The named result `msgRct` starts as nil, and its fields are set one after the other.
  unfoldable pub fill_receipt : String → ChainReceipt → Run (Option MessageReceipt)
  fill_receipt ret r = do
    a ← assign (λ (m : MessageReceipt). record m { exit_code = r.exit_code }) none
    b ← assign (λ (m : MessageReceipt). record m { return = ret }) a
    assign (λ (m : MessageReceipt). record m { gas_used = r.gas_used }) b

  unfoldable pub lotus_message_receipt_convert :
      Cid → ℕ → Option ChainReceipt → Option MessageReceipt
  lotus_message_receipt_convert code method none = none
  lotus_message_receipt_convert code method (some r) =
      recovered (fill_receipt (return_text code method r.return) r)

  unfoldable pub gas_cost_convert : GasCost → MsgGasCost
  gas_cost_convert g = record {
    gas_used = big_string g.gas_used;
    base_fee_burn = big_string g.base_fee_burn;
    over_estimation_burn = big_string g.over_estimation_burn;
    miner_tip = big_string g.miner_tip;
    total_cost = big_string g.total_cost;
    refund = big_string g.refund;
    miner_penalty = big_string g.miner_penalty;
  }
