-- ===== src/Pool/Returns.antt =====
-- When `MpoolClean` returns: a panic comes only of a parameter text that has no number where one is
-- read, or of a missing storage miner.
use lotus_tools.Prelude.{
  ℕ, suc, ◌+◌, pos, String, true, false, ◌≡◌, refl, ◌∙◌, inl, inr, List, [], ◌∷◌, take, none,
  Result, ok, Run-cases, done, Bool-cases, contains, string_eq, ltb_ℤ,
}
use lotus_tools.Node.{Address, Cid, SignedMessage, Node}
use lotus_tools.Convert.{Environment, message_convert}
use lotus_tools.Convert.Messages.{NoPanic}
use lotus_tools.Pool.Defs.{
  MpoolQueue, TickerEpoch, parse_filter, get_code, get_ticker_epoch, is_sector_method,
  sector_epochs, no_epochs,
}
use lotus_tools.Pool.Clean.{Job, expiry_limit, estimated_limit, clean_one, clean_loop, mpool_clean}
use lotus_tools.Pool.Jobs.{selected, messages, AtFee, mpool_clean-AreJobs}

pub get_ticker_epoch_done :
    (node : Node) (method sector : ℕ)
    → (t : TickerEpoch) × (get_ticker_epoch node true method sector ≡ done t)
unfolding get_ticker_epoch
get_ticker_epoch_done node method sector = elim (Bool-cases (is_sector_method method)) [
  | inl b ↦ (sector_epochs node method sector, rw b refl)
  | inr b ↦ (no_epochs none, rw b refl)
]

module _ {V : Type 0} (env : Environment V) (safe : NoPanic env) where
  clean_one_done :
      (node : Node) (p : MpoolQueue) (sm : SignedMessage) (cache : List (Address × Cid))
      → p.has_storage ≡ true
      → (r : Job × List (Address × Cid)) × (clean_one env node p sm cache ≡ done r)
  unfolding clean_one
  clean_one_done node p sm cache h =
      let code = (get_code node sm.message.to cache).0 in
      elim (Run-cases (message_convert env code sm.message)) [
        | inl bad ↦ absurd (safe code sm.message bad)
        | inr (lmsg, e) ↦
            let (t, f) = get_ticker_epoch_done node sm.message.method lmsg.sector_number in
            (
              (
                record {
                  msg = sm;
                  limit =
                      expiry_limit p.conf.setting node t
                        (estimated_limit p.conf.setting (node.gas_estimate sm.message));
                  next_fee = p.fees.feecap;
                },
                (get_code node sm.message.to cache).1,
              ),
              rw (e, h, f) refl,
            )
      ]

  clean_loop_next :
      (answers : ℕ → Node) (p : MpoolQueue) (filter : List Address) (count i : ℕ)
      (sm : SignedMessage) (msgs : List SignedMessage) (cache cache' : List (Address × Cid))
      (job : Job) (rest : List Job × List (Address × Cid))
      → contains filter sm.message.from ≡ true
      → ltb_ℤ p.conf.setting.once_max (pos (count + 1)) ≡ false
      → clean_one env (answers i) p sm cache ≡ done (job, cache')
      → clean_loop env answers p filter (count + 1) (suc i) msgs cache' ≡ done rest
      → clean_loop env answers p filter count i (sm ∷ msgs) cache ≡ done (job ∷ rest.0, rest.1)
  unfolding clean_loop
  clean_loop_next answers p filter count i sm msgs cache cache' job rest c t e f = rw (c, t, e, f)

  clean_loop_stop :
      (answers : ℕ → Node) (p : MpoolQueue) (filter : List Address) (count i : ℕ)
      (sm : SignedMessage) (msgs : List SignedMessage) (cache : List (Address × Cid))
      → contains filter sm.message.from ≡ true
      → ltb_ℤ p.conf.setting.once_max (pos (count + 1)) ≡ true
      → clean_loop env answers p filter count i (sm ∷ msgs) cache ≡ done ([], cache)
  unfolding clean_loop
  clean_loop_stop answers p filter count i sm msgs cache c t = rw (c, t)

  clean_loop_skip :
      (answers : ℕ → Node) (p : MpoolQueue) (filter : List Address) (count i : ℕ)
      (sm : SignedMessage) (msgs : List SignedMessage) (cache : List (Address × Cid))
      → contains filter sm.message.from ≡ false
      → clean_loop env answers p filter count i (sm ∷ msgs) cache
        ≡ clean_loop env answers p filter count (suc i) msgs cache
  unfolding clean_loop
  clean_loop_skip answers p filter count i sm msgs cache c = rw c

  clean_loop_done :
      (answers : ℕ → Node) (p : MpoolQueue) (filter : List Address) (count i : ℕ)
      (msgs : List SignedMessage) (cache : List (Address × Cid))
      → p.has_storage ≡ true
      → (r : List Job × List (Address × Cid)) × (clean_loop env answers p filter count i msgs cache
          ≡ done r)
  unfolding clean_loop
  clean_loop_done answers p filter count i [] cache h = (([], cache), refl)
  clean_loop_done answers p filter count i (sm ∷ msgs) cache h =
      elim (Bool-cases (contains filter sm.message.from)) [
        | inr out ↦
            let (r, e) = clean_loop_done answers p filter count (suc i) msgs cache h in
            (r, clean_loop_skip answers p filter count i sm msgs cache out ∙ e)
        | inl c ↦ elim (Bool-cases (ltb_ℤ p.conf.setting.once_max (pos (count + 1)))) [
          | inl t ↦ (([], cache), clean_loop_stop answers p filter count i sm msgs cache c t)
          | inr t ↦
              let ((job, cache'), e) = clean_one_done (answers i) p sm cache h in
              let (rest, f) = clean_loop_done answers p filter (count + 1) (suc i) msgs cache' h in
              (
                (job ∷ rest.0, rest.1),
                clean_loop_next answers p filter count i sm msgs cache cache' job rest c t e f,
              )
        ]
      ]

  mpool_clean_done :
      (parse : String → Result Address) (node : Node) (answers : ℕ → Node) (p : MpoolQueue)
      (filter : List Address) (msgs : List SignedMessage)
      → parse_filter parse p.conf.setting.addresses ≡ ok filter
      → node.mpool_pending ≡ ok msgs
      → p.has_storage ≡ true
      → (jobs : List Job) × ((q : MpoolQueue) × (mpool_clean env parse node answers p
            ≡ done (jobs, q)))
  unfolding mpool_clean
  mpool_clean_done parse node answers p filter msgs e f h =
      let (r, g) = clean_loop_done answers p filter 0 0 msgs p.code_cache h in
      (r.0, (record p { code_cache = r.1 }, rw (e, f, g, mpool_clean)))

  -- `MpoolClean` returns, for a pool that the node gives and addresses that parse, and has started
  -- one job for each of the first OnceMax pending messages from the configured addresses, in the
  -- order of the pool, each with the current cap as its fee; apart from the code cache it leaves
  -- the state as it is. The conditions: OnceMax is not negative, a storage miner is connected, and
  -- no message's conversion panics.
  pub mpool_clean_returns :
      (parse : String → Result Address) (node : Node) (answers : ℕ → Node) (p : MpoolQueue)
      (once : ℕ) (filter : List Address) (msgs : List SignedMessage)
      → p.conf.setting.once_max ≡ pos once
      → parse_filter parse p.conf.setting.addresses ≡ ok filter
      → node.mpool_pending ≡ ok msgs
      → p.has_storage ≡ true
      → (jobs : List Job) × ((q : MpoolQueue) × (mpool_clean env parse node answers p
            ≡ done (jobs, q))
          × (messages jobs ≡ take once (selected filter msgs))
          × AtFee p.fees.feecap jobs
          × (q ≡ record p { code_cache = q.code_cache }))
  mpool_clean_returns parse node answers p once filter msgs k e f h =
      let (jobs, found) = mpool_clean_done parse node answers p filter msgs e f h in
      let (q, g) = found in
      let (all, fee, kept) =
        mpool_clean-AreJobs env parse node answers p q once filter msgs jobs k e f g in
      (jobs, (q, g, all, fee, kept))
