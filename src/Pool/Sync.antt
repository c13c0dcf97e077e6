-- ===== src/Pool/Sync.antt =====
-- `syncMsg` of mpoolQueue.go: one look at the message pool.
use lotus_tools.Prelude.{
  ℕ, suc, ◌+◌, ℤ, pos, true, false, none, some, List, [], ◌∷◌, ◌++◌, ok, err, Run, done, ◌>>=◌,
  if◌then◌else◌, ltb_ℤ, sub64, lookup, insert, contains, nat_eq, string_eq,
}
use lotus_tools.Config.{Setting}
use lotus_tools.Node.{Address, Cid, ChainMessage, SignedMessage, Node}
use lotus_tools.Convert.{Message, Environment, message_convert}
use lotus_tools.FeeController.{
  FeeState, get_next_fee_cap, reset_base_fee_cap, check_msg_too_more, check_msg_too_low,
}
use lotus_tools.Pool.Defs.{MessageLabels, Row, MpoolQueue, TickerEpoch, get_code, get_ticker_epoch}

-- What the loop over the messages builds up.
pub record Round : Type 0 where
  pub thislocalpools : List (ℕ × MessageLabels)
  pub msgtotal : ℕ
  pub code_cache : List (Address × Cid)
  pub rows : List Row

-- The labels of a message that the last round did not know.
unfoldable pub fresh_labels : Message → TickerEpoch → ℤ → MessageLabels
fresh_labels lmsg t height = record {
  message = lmsg;
  seal_rand_epoch = t.seal_epoch;
  seed_epoch = t.seed_epoch;
  expire_epoch = t.expire_epoch;
  remain_epoch = if ltb_ℤ (pos 0) t.expire_epoch then sub64 t.expire_epoch height else pos 0;
  expire_time_stamp = t.expire_time_stamp;
  catch_time = none;
}

-- The labels of the last round under the same sector number, or fresh ones.
unfoldable pub labels_for : Node → MpoolQueue → ℤ → ChainMessage → Message → Run MessageLabels
labels_for node p height m lmsg = elim (lookup lmsg.sector_number p.localpools) [
  | some v ↦ done v
  | none ↦ do
    t ← get_ticker_epoch node p.has_storage m.method lmsg.sector_number
    done (fresh_labels lmsg t height)
]

-- `setMpoolGauge`
unfoldable pub row : MessageLabels → ChainMessage → Row
row last m = record {
  labels = last;
  gas_fee_cap = m.gas_fee_cap;
  gas_premium = m.gas_premium;
  gas_limit = m.gas_limit;
}

-- The two tests at the end, one after the other.
unfoldable pub raise_if_too_more : Setting → ℤ → FeeState → Run FeeState
raise_if_too_more s total f =
    if check_msg_too_more s total
    then (do cap ← get_next_fee_cap s.base_fee_percent true f; reset_base_fee_cap s cap f)
    else done f

unfoldable pub adjust_if_too_low : Setting → ℤ → FeeState → Run FeeState
adjust_if_too_low s total f =
    if check_msg_too_low s total
    then (do cap ← get_next_fee_cap s.base_fee_percent false f; reset_base_fee_cap s cap f)
    else done f

unfoldable pub adjust : Setting → ℤ → FeeState → Run FeeState
adjust s total f = do f' ← raise_if_too_more s total f; adjust_if_too_low s total f'

unfoldable pub finish_sync : MpoolQueue → Round → Run MpoolQueue
finish_sync p r = do
  fees ← adjust p.conf.setting (pos r.msgtotal) p.fees
  done (record p {
    fees = fees;
    code_cache = r.code_cache;
    localpools = r.thislocalpools;
    rows = r.rows;
  })

module _ {V : Type 0} (env : Environment V) where
  -- The body of the loop for a message that passes the filter.
  unfoldable pub sync_one : Node → MpoolQueue → ℤ → ChainMessage → Round → Run Round
  sync_one node p height m r = do
    let (code, cache) = get_code node m.to r.code_cache
    lmsg ← message_convert env code m
    last ← labels_for node p height m lmsg
    done (record {
      thislocalpools = insert lmsg.sector_number last r.thislocalpools;
      msgtotal = r.msgtotal + 1;
      code_cache = cache;
      rows = r.rows ++ row last m ∷ [];
    })

  -- The loop. `answers i` is what the node answers while message i is handled.
  unfoldable pub sync_loop :
      (ℕ → Node) → MpoolQueue → ℤ → ℕ → List SignedMessage → Round → Run Round
  sync_loop answers p height i [] r = done r
  sync_loop answers p height i (sm ∷ msgs) r =
      if contains p.filter sm.message.from
      then (do
        r' ← sync_one (answers i) p height sm.message r
        sync_loop answers p height (suc i) msgs r')
      else sync_loop answers p height (suc i) msgs r

  -- An error of the node leaves everything as it is.
  unfoldable pub sync_msg : Node → (ℕ → Node) → MpoolQueue → Run MpoolQueue
  sync_msg node answers p = elim node.mpool_pending [
    | err _ ↦ done p
    | ok msgs ↦ elim node.chain_head [
      | err _ ↦ done p
      | ok ts ↦ do
        r ←
            sync_loop answers p ts.height 0 msgs
              (record { thislocalpools = []; msgtotal = 0; code_cache = p.code_cache; rows = [] })
        finish_sync p r
    ]
  ]
