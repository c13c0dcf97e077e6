-- ===== src/Pool/Clean.antt =====
-- baseFeeAuto/mpool.go without `doImprove`: `MpoolClean`, which starts a `doImprove` for the
-- pending messages, and the body of the loop of `DoClean`.
use text.Mathlib.Text.{find?}
use lotus_tools.Prelude.{
  ℕ, suc, ◌+◌, ℤ, pos, String, Bool, true, false, Option, none, some, List, [], ◌∷◌, Result, ok,
  err, Run, done, ◌>>=◌, if◌then◌else◌, ltb_ℤ, sub64, mul64, div64, contains, string_eq,
}
use lotus_tools.Config.{Setting}
use lotus_tools.Node.{Address, Cid, SignedMessage, Node, ChainTipSet}
use lotus_tools.Convert.{Environment, message_convert}
use lotus_tools.BaseFee.{get_base}
use lotus_tools.FeeController.{add_fee}
use lotus_tools.Pool.Defs.{MpoolQueue, TickerEpoch, parse_filter, get_code, get_ticker_epoch}

-- A `go p.doImprove(msg, limit, nextFee)`.
pub record Job : Type 0 where
  pub msg : SignedMessage
  pub limit : ℤ
  pub next_fee : ℤ

-- strings.Index(text, sub) != -1
abbrev pub has_text : String → String → Bool
has_text text sub = elim (find? text sub) [ none ↦ false | some _ ↦ true ]

-- The estimate of the gas limit, with five percent on top.
abbrev pub checked_limit : Setting → ℤ × Option String → ℤ
checked_limit s (limit, none) = limit
checked_limit s (limit, some e) = if has_text e "no pre-committed" then s.pre_break_limit else limit

unfoldable pub estimated_limit : Setting → ℤ × Option String → ℤ
estimated_limit s answer = div64 (mul64 (checked_limit s answer) (pos 105)) 100

-- An expired message gets the limit that breaks it.
abbrev pub at_head : Setting → ℤ → ℤ → Result ChainTipSet → ℤ
at_head s limit expire (err _) = limit
at_head s limit expire (ok ts) =
    if ltb_ℤ (sub64 expire ts.height) (pos 0) then s.pre_break_limit else limit

unfoldable pub expiry_limit : Setting → Node → TickerEpoch → ℤ → ℤ
expiry_limit s node t limit = elim t.error [
  | some _ ↦ limit
  | none ↦
      if ltb_ℤ (pos 0) t.expire_epoch then at_head s limit t.expire_epoch node.chain_head else limit
]

module _ {V : Type 0} (env : Environment V) where
  -- The body of the loop for a message that passes the filter, up to the start of the job.
  unfoldable pub clean_one :
      Node → MpoolQueue → SignedMessage → List (Address × Cid) → Run (Job × List (Address × Cid))
  clean_one node p sm cache = do
    let limit = estimated_limit p.conf.setting (node.gas_estimate sm.message)
    let (code, cache') = get_code node sm.message.to cache
    lmsg ← message_convert env code sm.message
    t ← get_ticker_epoch node p.has_storage sm.message.method lmsg.sector_number
    done (
      record {
        msg = sm;
        limit = expiry_limit p.conf.setting node t limit;
        next_fee = p.fees.feecap;
      },
      cache',
    )

  -- The loop: `count` is the number of messages that passed the filter before, `i` the place in
  -- the pool. The result is the jobs in the order in which they start, and the cache.
  unfoldable pub clean_loop :
      (ℕ → Node)
      → MpoolQueue
      → List Address
      → ℕ
      → ℕ
      → List SignedMessage
      → List (Address × Cid)
      → Run (List Job × List (Address × Cid))
  clean_loop answers p filter count i [] cache = done ([], cache)
  clean_loop answers p filter count i (sm ∷ msgs) cache =
      if contains filter sm.message.from
      then (if ltb_ℤ p.conf.setting.once_max (pos (count + 1)) then done ([], cache) else (do
        (job, cache') ← clean_one (answers i) p sm cache
        (jobs, last) ← clean_loop answers p filter (count + 1) (suc i) msgs cache'
        done (job ∷ jobs, last)))
      else clean_loop answers p filter count (suc i) msgs cache

  -- `MpoolClean`: nothing happens where an address does not parse or the node gives no messages.
  unfoldable pub mpool_clean :
      (String → Result Address) → Node → (ℕ → Node) → MpoolQueue → Run (List Job × MpoolQueue)
  mpool_clean parse node answers p = elim (parse_filter parse p.conf.setting.addresses) [
    | err _ ↦ done ([], p)
    | ok filter ↦ elim node.mpool_pending [
      | err _ ↦ done ([], p)
      | ok msgs ↦ do
        (jobs, cache) ← clean_loop answers p filter 0 0 msgs p.code_cache
        done (jobs, record p { code_cache = cache })
    ]
  ]

  -- One tick of `DoClean`: the observed fee is recorded, and below the cap the pool is cleaned.
  unfoldable pub clean_tick :
      (String → Result Address) → Node → (ℕ → Node) → MpoolQueue → Run (List Job × MpoolQueue)
  clean_tick parse node answers p = do
    base ← get_base node
    fees ← add_fee p.conf.setting base p.fees
    let p' = record p { fees = fees }
    if ltb_ℤ base p'.fees.feecap then mpool_clean parse node answers p' else done ([], p')
