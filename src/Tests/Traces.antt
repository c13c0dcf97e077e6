-- ===== src/Tests/Traces.antt =====
-- The conversion of a message with two sub-calls, and what is gathered of it.
use lotus_tools.Prelude.{
  ℕ, ℤ, pos, Bool, false, ◌≡◌, refl, some, none, [], ◌∷◌, done, ◌==◌, lookup, big_string, wrap64,
}
use lotus_tools.Node.{Address, Cid}
use lotus_tools.Stmgr.{parse_param, json_params, get_param_type, find_method, get_method}
use lotus_tools.Convert.{
  GasCost, message_convert, param_text, code_str, gas_cost_convert, lotus_message_receipt_convert,
}
use lotus_tools.Convert.Json.{
  get_sector_number_from_param, get_seal_rand_epoch_from_param, get_sector_length,
}
use lotus_tools.Convert.Traces.{
  Trace, trace, no_trace, next_trace, ExecutionTrace, execution, no_call, next_call, Converts,
  convert, all_ended, ended, first, later, Invocation, InvocResult, invoc_result_convert,
}
use lotus_tools.Convert.Calls.{calls, documented, Gives, Converts-calls}
use lotus_tools.Synchain.Jobs.{Gathers, all_done, nil_entry, appends, here}
use lotus_tools.Synchain.Gathered.{computed, gathered, Gathers-computed}
use lotus_tools.Tests.Data.{document, env-NoPanic, message, env, head}

abbrev leaf : ℕ → Trace
leaf nonce = trace (message "f3owner" nonce) none "" (pos 5) no_trace

abbrev whole : Trace
whole =
    trace (message "f3owner" 1) none "" (pos 90)
      (next_trace (leaf 8) (next_trace (leaf 9) no_trace))

abbrev account : Address → Cid
account a = "account"

abbrev call : ℕ → ExecutionTrace
call nonce = execution (document nonce) none "" (pos 5) no_call

abbrev whole_document : ExecutionTrace
whole_document =
    execution (document 1) none "" (pos 90) (next_call (call 9) (next_call (call 8) no_call))

converted : (n : ℕ) → message_convert env "account" (message "f3owner" n) ≡ done (document n)
unfolding message_convert param_text parse_param json_params get_param_type find_method lookup
    get_method code_str get_sector_number_from_param get_seal_rand_epoch_from_param
    get_sector_length big_string
converted n = refl

leaf-Converts : (n : ℕ) → Converts env (Gives account) false (leaf n) (call n)
unfolding lotus_message_receipt_convert
leaf-Converts n = convert refl (converted n) all_ended

-- The second sub-call ends first.
whole-Converts : Converts env (Gives account) false whole whole_document
unfolding lotus_message_receipt_convert
whole-Converts =
    convert refl (converted 1)
      (ended (leaf-Converts 8) (ended (leaf-Converts 9) all_ended first) (later first))

-- The calls with a nonce of 8.
abbrev eighth : ℕ → ℤ → ℕ → Bool
eighth nonce gas_limit method = nonce == 8

Converts-calls_example : documented eighth whole_document ≡ calls eighth whole
Converts-calls_example =
    Converts-calls eighth env (Gives account) whole whole_document whole-Converts

abbrev cost : GasCost
cost = record {
  gas_used = pos 1;
  base_fee_burn = pos 2;
  over_estimation_burn = pos 3;
  miner_tip = pos 4;
  total_cost = pos 9;
  refund = pos 0;
  miner_penalty = pos 0;
}

abbrev invocation : Invocation
invocation = record {
  msg_cid = "cid1";
  msg = message "f3owner" 1;
  msg_rct = none;
  gas_cost = cost;
  trace = whole;
  error = "";
  duration = pos 90;
}

abbrev invoked : InvocResult
invoked = record {
  msg_cid = "cid1";
  message = document 1;
  msg_rct = none;
  error = "";
  duration = pos 90;
  base_fee = "100";
  gas_cost = record {
    gas_used = "1";
    base_fee_burn = "2";
    over_estimation_burn = "3";
    miner_tip = "4";
    total_cost = "9";
    refund = "0";
    miner_penalty = "0";
  };
  height = pos 5000;
  time = pos 1600000000;
  execution_trace = whole_document;
}

invoke :
    invoc_result_convert env "100" invocation head.height head.min_timestamp "account"
      whole_document
    ≡ done invoked
unfolding invoc_result_convert message_convert param_text parse_param json_params get_param_type
    find_method lookup get_method code_str get_sector_number_from_param
    get_seal_rand_epoch_from_param get_sector_length big_string lotus_message_receipt_convert
    gas_cost_convert wrap64
invoke = refl

gather : Gathers env (Gives account) false "100" head (some invocation ∷ none ∷ []) (invoked ∷ [])
gather = appends refl whole-Converts invoke (nil_entry all_done) here

Gathers-computed_example :
    gathered eighth (invoked ∷ []) ≡ computed eighth (some invocation ∷ none ∷ [])
Gathers-computed_example =
    Gathers-computed eighth env (Gives account) "100" head (some invocation ∷ none ∷ [])
      (invoked ∷ []) env-NoPanic gather
