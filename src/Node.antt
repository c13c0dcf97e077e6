-- ===== src/Node.antt =====
-- The values that the lotus node and the storage miner hand to the program, and the calls that
-- the program makes of them. The node is not part of the program: a model that calls it takes its
-- answers as an argument.
use lotus_tools.Prelude.{ℕ, ℤ, String, List, Option, Result}

-- `address.Address` and `cid.Cid` are comparable structs around a string.
abbrev pub Address : Type 0
Address = String

abbrev pub Cid : Type 0
Cid = String

-- `types.Message` of lotus.
pub record ChainMessage : Type 0 where
  pub version : ℕ
  pub to : Address
  pub from : Address
  pub nonce : ℕ
  pub value : ℤ
  pub gas_limit : ℤ
  pub gas_fee_cap : ℤ
  pub gas_premium : ℤ
  pub method : ℕ
  pub params : List ℕ

pub record SignedMessage : Type 0 where
  pub message : ChainMessage
  pub signature : List ℕ

-- What the program reads of a block header and of a tip set.
pub record Block : Type 0 where
  pub cid : Cid
  pub miner : Address
  pub timestamp : ℕ
  pub parent_base_fee : ℤ

pub record ChainTipSet : Type 0 where
  pub height : ℤ
  pub min_timestamp : ℕ
  pub blocks : List Block

-- What it reads of `api.SectorInfo`.
pub record SectorInfo : Type 0 where
  pub ticket_epoch : ℤ
  pub seed_epoch : ℤ

-- The answers of the node to the calls that one handler makes. `gas_estimate` returns the number
-- also beside an error, as in Go.
pub record Node : Type 0 where
  pub mpool_pending : Result (List SignedMessage)
  pub chain_head : Result ChainTipSet
  pub gas_estimate : ChainMessage → ℤ × Option String
  pub get_actor : Address → Result Cid
  pub tip_set_by_height : ℤ → Result ChainTipSet
  pub sectors_status : ℕ → Result SectorInfo
  pub wallet_sign : Address → ChainMessage → Result SignedMessage
  pub mpool_push : SignedMessage → Result Cid

-- Method numbers of specs-actors' `builtin.MethodsMiner`, v0 and v5.
abbrev pub pre_commit_sector : ℕ
pre_commit_sector = 6

abbrev pub prove_commit_sector : ℕ
prove_commit_sector = 7

abbrev pub pre_commit_sector_batch : ℕ
pre_commit_sector_batch = 25

abbrev pub prove_commit_aggregate : ℕ
prove_commit_aggregate = 26

abbrev pub epochs_in_day : ℕ
epochs_in_day = 2880

abbrev pub max_pre_commit_randomness_lookback : ℕ
max_pre_commit_randomness_lookback = 3780
