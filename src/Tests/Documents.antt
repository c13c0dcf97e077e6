-- ===== src/Tests/Documents.antt =====
-- The method tables of two actors, and the conversion of messages.
use lotus_tools.Prelude.{
  ◌+◌, pos, String, ◌≡◌, refl, ◌↔◌, ◌⊎◌, Option, some, none, List, [], ◌∷◌, get_elem?, Run, done,
  panic, lookup, insert, codes, big_string, false, if◌then◌else◌, nat_eq, string_eq,
}
use lotus_tools.Config.{Float64}
use lotus_tools.Node.{prove_commit_aggregate}
use lotus_tools.Stmgr.{
  Export, VmActor, Methods, bytes_eq, method_name, after_last, trim_suffix, meta, is_reserved,
  add_exports, actor_methods, register, find_method, parse_param, json_params, get_param_type,
  get_method, send_meta,
}
use lotus_tools.Stmgr.Table.{actor_methods-panic_iff}
use lotus_tools.Stmgr.Registry.{find_last, method_of, register-exported}
use lotus_tools.Convert.{
  Message, ChainReceipt, GasCost, message_convert, param_text, code_str,
  lotus_message_receipt_convert,
}
use lotus_tools.Convert.Json.{
  str, arr, Fields, end, field, Decoder, get_sector_length, get_sector_number_from_param,
  get_seal_rand_epoch_from_param,
}
use lotus_tools.Convert.Messages.{Keeps, message_convert-Keeps, lotus_message_receipt_convert-none}
use lotus_tools.Convert.Sectors.{runs_json, get_sector_length-runs}
use lotus_tools.Tests.Data.{message, env}

abbrev export : String → Export
export name = record {
  fn_name = codes name;
  in_type = "*abi.EmptyValue";
  out_type = "*abi.EmptyValue";
}

abbrev exports : List (Option Export)
exports =
    none
    ∷ some (export "actors/account.Actor.Constructor-fm")
    ∷ some (export "actors/account.Actor.PubkeyAddress-fm")
    ∷ []

named : method_name (codes "actors/account.Actor.Constructor-fm") ≡ codes "Constructor"
unfolding method_name after_last trim_suffix
named = refl

abbrev methods : Methods
methods =
    (0, send_meta)
    ∷ (1, meta (export "actors/account.Actor.Constructor-fm"))
    ∷ (2, meta (export "actors/account.Actor.PubkeyAddress-fm"))
    ∷ []

built : actor_methods exports ≡ done methods
unfolding actor_methods add_exports is_reserved method_name after_last trim_suffix insert
built = refl

actor_methods-panic_iff_example : (actor_methods exports ≡ panic) ↔ (
    ((e : Export) × (get_elem? exports 0 ≡ some (some e)))
    ⊎ ((e : Export) × (get_elem? exports 1 ≡ some (some e))
        × (bytes_eq (method_name e.fn_name) (codes "Constructor") ≡ false)))
actor_methods-panic_iff_example = actor_methods-panic_iff exports

-- Two versions of an actor under one code: the later one stays.
abbrev actors : List VmActor
actors =
    record { code = "account"; exports = [] } ∷ record { code = "account"; exports = exports } ∷ []

registered : register actors [] ≡ done (("account", methods) ∷ [])
unfolding register actor_methods add_exports is_reserved method_name after_last trim_suffix insert
registered = refl

register-exported_example :
    find_method (("account", methods) ∷ []) "account" 2
    ≡ method_of (find_last "account" actors) 2 none
register-exported_example = register-exported actors "account" 2 registered

from_done : Message → Run Message → Message
from_done d (done r) = r
from_done d panic = d

abbrev converted : Message
converted = record {
  version = 0;
  to = "f05";
  from = "f3owner";
  nonce = 1;
  value = "7";
  gas_limit = pos 600000;
  gas_fee_cap = "1000000000";
  gas_premium = "100250";
  method = 0;
  params = "";
  sector_number = 0;
  seal_rand_epoch = pos 0;
  sector_length = pos 0;
  cid = "cid";
  method_str = [];
  code_str = codes "NA";
}

convert : message_convert env "account" (message "f3owner" 1) ≡ done converted
unfolding message_convert param_text parse_param json_params get_param_type find_method lookup
    get_method code_str get_sector_number_from_param get_seal_rand_epoch_from_param
    get_sector_length big_string
convert = refl

message_convert-Keeps_example : Keeps (message "f3owner" 1) converted
message_convert-Keeps_example = message_convert-Keeps env "account" (message "f3owner" 1) convert

abbrev cost : GasCost
cost = record {
  gas_used = pos 1;
  base_fee_burn = pos 20;
  over_estimation_burn = pos 300;
  miner_tip = pos 4;
  total_cost = pos 325;
  refund = pos 0;
  miner_penalty = pos 0;
}

abbrev receipt : ChainReceipt
receipt = record { exit_code = pos 0; return = []; gas_used = pos 1200 }

lotus_message_receipt_convert-none_example :
    lotus_message_receipt_convert env "account" 2 (some receipt) ≡ none
lotus_message_receipt_convert-none_example =
    lotus_message_receipt_convert-none env "account" 2 (some receipt)

-- A text that decodes to a bitfield of two runs, and any other to a sector number that is text.
abbrev runs : List (Float64 × Float64)
runs = (5, 3) ∷ (2, 4) ∷ []

abbrev aggregate : Fields
aggregate = field "SectorNumbers" (arr (runs_json runs)) end

abbrev wrong : Fields
wrong = field "SectorNumber" (str "9") end

abbrev decoder : Decoder
decoder = record {
  unmarshal = λ text. some (if string_eq.beq text "runs" then aggregate else wrong);
  add = λ a b. a + b;
  to_uint64 = λ f. f;
  to_int64 = λ f. pos f;
}

get_sector_length-runs_example :
    get_sector_length decoder prove_commit_aggregate "runs" ≡ done (pos 7)
get_sector_length-runs_example = get_sector_length-runs decoder "runs" runs refl refl
