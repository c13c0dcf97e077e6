-- ===== src/Pool/Service.antt =====
-- The service as a whole: `NewLocalPool`, and then the two loops of `Start` and `DoClean`, whose
-- ticks come in any order.
use lotus_tools.Prelude.{
  ℕ, ◌⊎◌, Result-cases, ℤ, pos, String, Bool, true, false, ◌≡◌, sym, ap, ◌∙◌, subst, inl, inr, some,
  List, [], Result, ok, done, ◌>>=◌, Run->>=-eq-done, done-injective, arith, if◌then◌else◌,
  big_from_string, ◌≤ℤ◌, ◌<ℤ◌, ltb_ℤ,
}
use lotus_tools.Config.{Config}
use lotus_tools.Node.{Address, Node, SignedMessage, ChainTipSet}
use lotus_tools.Convert.{Environment}
use lotus_tools.FeeController.{period, add_fee}
use lotus_tools.Pool.Defs.{MpoolQueue, new_local_pool}
use lotus_tools.Pool.Sync.{Round, adjust, finish_sync, sync_loop, sync_msg}
use lotus_tools.Pool.Bounded.{HoldsFees, adjust-HoldsFees, add_fee-HoldsFees}
use lotus_tools.Pool.Clean.{Job, mpool_clean, clean_tick}
use lotus_tools.BaseFee.{get_base}

module _ {V : Type 0} (env : Environment V) (parse : String → Result Address) where
  -- One tick of either loop that returns, with whatever the node answers meanwhile.
  pub data Step : MpoolQueue → MpoolQueue → Type 0 where
    sync_tick :
        {p q : MpoolQueue} (node : Node) (answers : ℕ → Node)
        → sync_msg env node answers p ≡ done q
        → Step p q
    improve_tick :
        {p q : MpoolQueue} (node : Node) (answers : ℕ → Node) (jobs : List Job)
        → clean_tick env parse node answers p ≡ done (jobs, q)
        → Step p q

  -- The states of the service that a configuration starts.
  pub data Reachable (c : Config) (has_storage : Bool) (gauge : ℤ) : MpoolQueue → Type 0 where
    started :
        {p : MpoolQueue}
        → new_local_pool parse c has_storage gauge ≡ ok p
        → Reachable c has_storage gauge p
    ticked :
        {p q : MpoolQueue}
        → Reachable c has_storage gauge p
        → Step p q
        → Reachable c has_storage gauge q

-- What holds in every state: the configuration is the one of the start, and the fees are as
-- `HoldsFees` says.
pub record Holds (c : Config) (lo hi : ℤ) (p : MpoolQueue) : Type 0 where
  pub conf : p.conf ≡ c
  pub fees : HoldsFees c lo hi p.fees

module _ (parse : String → Result Address) (c : Config) {lo hi : ℤ}
    (parses : big_from_string c.setting.base_fee ≡ some lo) where
  -- What holds at the start.
  pub start-Holds :
      (has_storage : Bool) (gauge : ℤ) (p : MpoolQueue)
      → big_from_string c.setting.base_fee_max ≡ some hi
      → lo ≤ℤ hi
      → new_local_pool parse c has_storage gauge ≡ ok p
      → Holds c lo hi p
  unfolding new_local_pool
  start-Holds has_storage gauge p m le h =
      let conf_same : p.conf ≡ c = ground arith in
      let cap : p.fees.feecap ≡ lo = ground arith in
      let top : p.fees.max_feecap ≡ hi = ground arith in
      let empty : p.fees.fee_queue ≡ [] = ground arith in
      record {
        conf = conf_same;
        fees = record {
          bounds = record { above_min = rw cap (omega arith); below_max = rw (cap, top) le };
          max_feecap = top;
          queue = rw empty (omega arith);
        };
      }

finish_sync-adjust :
    (p : MpoolQueue) (r : Round) (q : MpoolQueue)
    → finish_sync p r ≡ done q
    → (adjust p.conf.setting (pos r.msgtotal) p.fees ≡ done q.fees) × (q.conf ≡ p.conf)
unfolding finish_sync
finish_sync-adjust p r q h =
    let (f, e, last) = Run->>=-eq-done (adjust p.conf.setting (pos r.msgtotal) p.fees) _ h in
    let same = done-injective last in
    (e ∙ ap (λ (z : MpoolQueue). done z.fees) same, sym (ap (λ (z : MpoolQueue). z.conf) same))

module _ {V : Type 0} (env : Environment V) (parse : String → Result Address) where
  abbrev empty_round : MpoolQueue → Round
  empty_round p = record { thislocalpools = []; msgtotal = 0; code_cache = p.code_cache; rows = [] }

  sync_msg-step :
      (node : Node) (answers : ℕ → Node) (p : MpoolQueue) {msgs : List SignedMessage}
      {ts : ChainTipSet}
      → node.mpool_pending ≡ ok msgs
      → node.chain_head ≡ ok ts
      → sync_msg env node answers p
        ≡ (sync_loop env answers p ts.height 0 msgs (empty_round p) >>= λ r. finish_sync p r)
  unfolding sync_msg
  sync_msg-step node answers p f g = rw (f, g, sync_msg)

  sync_msg-finish :
      (node : Node) (answers : ℕ → Node) (p q : MpoolQueue)
      → sync_msg env node answers p ≡ done q
      → (p ≡ q) ⊎ ((r : Round) × (finish_sync p r ≡ done q))
  unfolding sync_msg
  sync_msg-finish node answers p q h = elim (Result-cases node.mpool_pending) [
    | inl (e, f) ↦ inl (ground arith)
    | inr (msgs, f) ↦ elim (Result-cases node.chain_head) [
      | inl (e, g) ↦ inl (ground arith)
      | inr (ts, g) ↦
          let (r, found, last) =
            Run->>=-eq-done (sync_loop env answers p ts.height 0 msgs (empty_round p))
              (λ r. finish_sync p r) (sym (sync_msg-step node answers p f g) ∙ h) in
          inr (r, last)
    ]
  ]

  mpool_clean-kept :
      (node : Node) (answers : ℕ → Node) (p q : MpoolQueue) (jobs : List Job)
      → mpool_clean env parse node answers p ≡ done (jobs, q)
      → (q.conf ≡ p.conf) × (q.fees ≡ p.fees)
  unfolding mpool_clean
  mpool_clean-kept node answers p q jobs h = ground arith

  mpool_clean_if :
      (low : Bool) (node : Node) (answers : ℕ → Node) (p q : MpoolQueue) (jobs : List Job)
      → (if low then mpool_clean env parse node answers p else done ([], p)) ≡ done (jobs, q)
      → (q.conf ≡ p.conf) × (q.fees ≡ p.fees)
  mpool_clean_if true node answers p q jobs h = mpool_clean-kept node answers p q jobs h
  mpool_clean_if false node answers p q jobs h =
      let same : p ≡ q = ap (λ (z : List Job × MpoolQueue). z.1) (done-injective h) in
      (sym (ap (λ z. z.conf) same), sym (ap (λ z. z.fees) same))

  clean_tick-parts :
      (node : Node) (answers : ℕ → Node) (p q : MpoolQueue) (jobs : List Job)
      → clean_tick env parse node answers p ≡ done (jobs, q)
      → (fee : ℤ) × (add_fee p.conf.setting fee p.fees ≡ done q.fees) × (q.conf ≡ p.conf)
  unfolding clean_tick
  clean_tick-parts node answers p q jobs h =
      let (base, e, more) = Run->>=-eq-done (get_base node) _ h in
      let (fees, f, last) = Run->>=-eq-done (add_fee p.conf.setting base p.fees) _ more in
      let (conf_kept, fees_kept) =
        mpool_clean_if (ltb_ℤ base fees.feecap) node answers (record p { fees = fees }) q jobs
          last in
      (base, f ∙ ap done (sym fees_kept), conf_kept)

  module _ (c : Config) {lo hi : ℤ} (parses : big_from_string c.setting.base_fee ≡ some lo)
      (ticks : pos 0 <ℤ period c.setting) where
    finish_sync-Holds :
        (p : MpoolQueue) (r : Round) (q : MpoolQueue)
        → finish_sync p r ≡ done q
        → Holds c lo hi p
        → Holds c lo hi q
    finish_sync-Holds p r q h v =
        let (adjusted, conf_kept) = finish_sync-adjust p r q h in
        let own : adjust c.setting (pos r.msgtotal) p.fees ≡ done q.fees =
          subst (λ z. adjust z.setting (pos r.msgtotal) p.fees ≡ done q.fees) v.conf adjusted in
        record {
          conf = conf_kept ∙ v.conf;
          fees = adjust-HoldsFees c parses (pos r.msgtotal) p.fees q.fees own v.fees;
        }

    Step-Holds : {p q : MpoolQueue} → Step env parse p q → Holds c lo hi p → Holds c lo hi q
    Step-Holds {p} {q} (sync_tick node answers h) v = elim (sync_msg-finish node answers p q h) [
      | inl same ↦ subst (Holds c lo hi) same v
      | inr (r, e) ↦ finish_sync-Holds p r q e v
    ]
    Step-Holds {p} {q} (improve_tick node answers jobs h) v =
        let (fee, added, conf_kept) = clean_tick-parts node answers p q jobs h in
        let own : add_fee c.setting fee p.fees ≡ done q.fees =
          subst (λ z. add_fee z.setting fee p.fees ≡ done q.fees) v.conf added in
        record {
          conf = conf_kept ∙ v.conf;
          fees = add_fee-HoldsFees c parses fee p.fees q.fees ticks own v.fees;
        }

    -- In every state of the service, whatever the node has answered and in whatever order the ticks
    -- of the two loops have come, the configuration is that of the start, the base-fee cap is
    -- between the configured minimum and maximum, and the queue holds at most one fee more than an
    -- hour has periods. The conditions: the minimum and the maximum parse, the minimum is the
    -- smaller, and the period of the ticker is positive.
    pub Reachable-Holds :
        (has_storage : Bool) (gauge : ℤ) (p : MpoolQueue)
        → big_from_string c.setting.base_fee_max ≡ some hi
        → lo ≤ℤ hi
        → Reachable env parse c has_storage gauge p
        → Holds c lo hi p
    Reachable-Holds has_storage gauge p m le (started h) =
        start-Holds parse c parses has_storage gauge p m le h
    Reachable-Holds has_storage gauge q m le (ticked {p = p} before s) =
        Step-Holds s (Reachable-Holds has_storage gauge p m le before)
