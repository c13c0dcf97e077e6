-- ===== src/Tests/Data.antt =====
-- Test data: the default configuration, a node with four pending messages, and a storage miner
-- that knows one sector.
use lotus_tools.Prelude.{codes, String, Result, ℕ, ℤ, pos, none, List, [], ◌∷◌, ok, true}
use lotus_tools.Config.{Config, Setting, default_config}
use lotus_tools.Node.{Address, ChainMessage, SignedMessage, ChainTipSet, SectorInfo, Node}
use lotus_tools.FeeController.{FeeState}
use lotus_tools.Stmgr.{Codec}
use lotus_tools.Convert.{Message, Environment, message_convert}
use lotus_tools.Convert.Json.{
  get_sector_number_from_param, get_seal_rand_epoch_from_param, get_sector_length,
}
use lotus_tools.Convert.Messages.{NoPanic}
use lotus_tools.Pool.{MpoolQueue}

abbrev pub setting : Setting
setting = default_config.setting

abbrev pub config : Config
config = record default_config { setting = record setting { addresses = "f3owner" ∷ [] } }

-- A transfer with a nonce, from an address.
abbrev pub message : Address → ℕ → ChainMessage
message from nonce = record {
  version = 0;
  to = "f05";
  from = from;
  nonce = nonce;
  value = pos 7;
  gas_limit = pos 600000;
  gas_fee_cap = pos 1000000000;
  gas_premium = pos 100250;
  method = 0;
  params = [];
}

abbrev pub signed : ChainMessage → SignedMessage
signed m = record { message = m; signature = 1 ∷ [] }

abbrev pub pending : List SignedMessage
pending =
    signed (message "f3owner" 1)
    ∷ signed (message "f3stranger" 5)
    ∷ signed (message "f3owner" 2)
    ∷ signed (message "f3owner" 3)
    ∷ []

abbrev pub head : ChainTipSet
head = record {
  height = pos 5000;
  min_timestamp = 1600000000;
  blocks =
      record { cid = "b"; miner = "f01"; timestamp = 1600000000; parent_base_fee = pos 100 } ∷ [];
}

abbrev pub sector : SectorInfo
sector = record { ticket_epoch = pos 1000; seed_epoch = pos 3000 }

abbrev pub node : Node
node = record {
  mpool_pending = ok pending;
  chain_head = ok head;
  gas_estimate = λ m. (m.gas_limit, none);
  get_actor = λ a. ok "account";
  tip_set_by_height = λ h. ok head;
  sectors_status = λ n. ok sector;
  wallet_sign = λ a m. ok (signed m);
  mpool_push = λ sm. ok "cid";
}

abbrev pub codec : Codec ℕ
codec = record {
  unmarshal_cbor = λ t b. ok 0;
  marshal = λ v. ok "{}";
  marshal_indent = λ v. ok "{}";
}

abbrev pub env : Environment ℕ
env = record {
  codec = codec;
  decoder = record {
    unmarshal = λ text. none;
    add = λ a b. a;
    to_uint64 = λ f. f;
    to_int64 = λ f. pos f;
  };
  naming = record {
    address_string = λ a. a;
    cid_string = λ c. c;
    message_cid = λ m. "cid";
    digest = λ c. none;
  };
  table = [];
}

-- Its decoder decodes nothing, so that no conversion panics.
pub env-NoPanic : NoPanic env
unfolding message_convert get_sector_number_from_param get_seal_rand_epoch_from_param
    get_sector_length
env-NoPanic code m h = cc

-- Every text is an address.
abbrev pub parse : String → Result Address
parse s = ok s

abbrev pub fees : FeeState
fees = record {
  feecap = pos 2000000000;
  max_feecap = pos 9000000000;
  fee_queue = [];
  gauge = pos 2000000000;
}

-- Ten observed fees.
abbrev pub observed : List ℤ
observed =
    pos 50 ∷ pos 40 ∷ pos 90 ∷ pos 10 ∷ pos 70 ∷ pos 20 ∷ pos 60 ∷ pos 30 ∷ pos 100 ∷ pos 80 ∷ []

abbrev pub pool : MpoolQueue
pool = record {
  conf = config;
  has_storage = true;
  filter = "f3owner" ∷ [];
  fees = record fees { fee_queue = observed };
  code_cache = [];
  localpools = [];
  rows = [];
}

-- The document of a transfer.
abbrev pub document : ℕ → Message
document nonce = record {
  version = 0;
  to = "f05";
  from = "f3owner";
  nonce = nonce;
  value = "7";
  gas_limit = pos 600000;
  gas_fee_cap = "1000000000";
  gas_premium = "100250";
  method = 0;
  params = "";
  sector_number = 0;
  seal_rand_epoch = pos 0;
  sector_length = pos 0;
  cid = "cid";
  method_str = [];
  code_str = codes "NA";
}
