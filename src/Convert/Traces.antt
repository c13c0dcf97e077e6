-- ===== src/Convert/Traces.antt =====
-- `LotusExecutionTraceConvert` and `LotusInvocResultConvert` of types/message.go. The sub-calls of a
-- trace are converted by goroutines that append what they have made when they end, so the
-- conversion is a relation: in whatever order they end, and, where the context is cancelled, with
-- whatever sub-calls are given up.
use lotus_tools.Prelude.{ℕ, ℤ, pos, String, Bool, true, ◌≡◌, Option, Run, done, ◌>>=◌, wrap64}
use lotus_tools.Node.{Address, Cid, ChainMessage}
use lotus_tools.Convert.Defs.{
  Message, MessageReceipt, MsgGasCost, ChainReceipt, GasCost, Environment, message_convert,
  lotus_message_receipt_convert, gas_cost_convert,
}

-- The node's `types.ExecutionTrace`, in which no message is nil, and the document made of it.
mutual
  pub data Trace : Type 0 where
    trace : ChainMessage → Option ChainReceipt → String → ℤ → Traces → Trace

  pub data Traces : Type 0 where
    no_trace : Traces
    next_trace : Trace → Traces → Traces

mutual
  pub data ExecutionTrace : Type 0 where
    execution : Message → Option MessageReceipt → String → ℤ → Subcalls → ExecutionTrace

  pub data Subcalls : Type 0 where
    no_call : Subcalls
    next_call : ExecutionTrace → Subcalls → Subcalls

-- A call put at any place among others.
pub data IsInserted : ExecutionTrace → Subcalls → Subcalls → Type 0 where
  first : {x : ExecutionTrace} {xs : Subcalls} → IsInserted x xs (next_call x xs)
  later :
      {x y : ExecutionTrace} {xs ys : Subcalls}
      → IsInserted x xs ys
      → IsInserted x (next_call y xs) (next_call y ys)

module _ {V : Type 0} (env : Environment V) (code_of : Address → Cid → Type 0)
    (cancelled : Bool) where
  -- `code_of a c` says that `getCode` may give c for a; an error gives the empty identifier.
  mutual
    pub data Converts : Trace → ExecutionTrace → Type 0 where
      convert :
          {m : ChainMessage} {r : Option ChainReceipt} {e : String} {d : ℤ} {ts : Traces}
          {code : Cid} {lmsg : Message} {xs : Subcalls}
          → code_of m.to code
          → message_convert env code m ≡ done lmsg
          → Collects ts xs
          → Converts
              (trace m r e d ts)
              (execution lmsg (lotus_message_receipt_convert env code m.method r) e d xs)

    pub data Collects : Traces → Subcalls → Type 0 where
      all_ended : Collects no_trace no_call
      ended :
          {t : Trace} {ts : Traces} {x : ExecutionTrace} {xs ys : Subcalls}
          → Converts t x
          → Collects ts xs
          → IsInserted x xs ys
          → Collects (next_trace t ts) ys
      given_up :
          {t : Trace} {ts : Traces} {xs : Subcalls}
          → cancelled ≡ true
          → Collects ts xs
          → Collects (next_trace t ts) xs

-- `api.InvocResult` of lotus, and the document of a message.
pub record Invocation : Type 0 where
  pub msg_cid : Cid
  pub msg : ChainMessage
  pub msg_rct : Option ChainReceipt
  pub gas_cost : GasCost
  pub trace : Trace
  pub error : String
  pub duration : ℤ

pub record InvocResult : Type 0 where
  pub msg_cid : String
  pub message : Message
  pub msg_rct : Option MessageReceipt
  pub error : String
  pub duration : ℤ
  pub base_fee : String
  pub gas_cost : MsgGasCost
  pub height : ℤ
  pub time : ℤ
  pub execution_trace : ExecutionTrace

module _ {V : Type 0} (env : Environment V) where
  -- `LotusInvocResultConvert`, for the code that `getCode` gives and the converted trace.
  unfoldable pub invoc_result_convert :
      String → Invocation → ℤ → ℕ → Cid → ExecutionTrace → Run InvocResult
  invoc_result_convert base_fee inv height timestamp code x = do
    lmsg ← message_convert env code inv.msg
    done (record {
      msg_cid = env.naming.cid_string inv.msg_cid;
      message = lmsg;
      msg_rct = lotus_message_receipt_convert env code inv.msg.method inv.msg_rct;
      error = inv.error;
      duration = inv.duration;
      base_fee = base_fee;
      gas_cost = gas_cost_convert env inv.gas_cost;
      height = height;
      time = wrap64 (pos timestamp);
      execution_trace = x;
    })
