-- ===== src/Pool/Jobs.antt =====
-- Which jobs `MpoolClean` starts.
use lotus_tools.Prelude.{
  ℕ, zero, suc, ◌+◌, ◌-◌, ◌<◌, ℤ, pos, String, true, false, ◌≡◌, refl, inl, inr, List, [], ◌∷◌,
  take, Result, ok, done, ◌>>=◌, Run->>=-eq-done, arith, if◌then◌else◌, contains, string_eq, ltb_ℤ,
  Bool-cases, dec_lt, subst, sym, ◌∙◌, ap₂, done-injective,
}
use lotus_tools.Node.{Address, Cid, SignedMessage, Node}
use lotus_tools.Convert.{Environment}
use lotus_tools.Pool.Defs.{MpoolQueue, parse_filter}
use lotus_tools.Pool.Clean.{Job, clean_one, clean_loop, mpool_clean}

-- The messages whose sender is in the filter.
abbrev pub selected : List Address → List SignedMessage → List SignedMessage
selected filter [] = []
selected filter (sm ∷ msgs) =
    let rest = selected filter msgs in if contains filter sm.message.from then sm ∷ rest else rest

-- The messages that jobs are about.
abbrev pub messages : List Job → List SignedMessage
messages [] = []
messages (j ∷ js) = j.msg ∷ messages js

abbrev pub AtFee : ℤ → List Job → Type 0
AtFee fee [] = Unit
AtFee fee (j ∷ js) = (j.next_fee ≡ fee) × AtFee fee js

take_nil : (n : ℕ) → take {A = SignedMessage} n [] ≡ []
take_nil zero = refl
take_nil (suc n) = refl

module _ {V : Type 0} (env : Environment V) where
  clean_one-msg :
      (node : Node) (p : MpoolQueue) (sm : SignedMessage) (cache cache' : List (Address × Cid))
      (job : Job)
      → clean_one env node p sm cache ≡ done (job, cache')
      → (job.msg ≡ sm) × (job.next_fee ≡ p.fees.feecap)
  unfolding clean_one
  clean_one-msg node p sm cache cache' job h = ground arith

  -- The loop stops at the message that would be one too many.
  clean_loop-full :
      (answers : ℕ → Node) (p : MpoolQueue) (filter : List Address) (once count i : ℕ)
      (sm : SignedMessage) (msgs : List SignedMessage) (cache : List (Address × Cid))
      → p.conf.setting.once_max ≡ pos once
      → contains filter sm.message.from ≡ true
      → once < count + 1
      → clean_loop env answers p filter count i (sm ∷ msgs) cache ≡ done ([], cache)
  unfolding clean_loop
  clean_loop-full answers p filter once count i sm msgs cache k c full = ground arith

  -- Otherwise a selected message starts the first job.
  clean_loop-step :
      (answers : ℕ → Node) (p : MpoolQueue) (filter : List Address) (once count i : ℕ)
      (sm : SignedMessage) (msgs : List SignedMessage) (cache : List (Address × Cid))
      → p.conf.setting.once_max ≡ pos once
      → contains filter sm.message.from ≡ true
      → ¬ (once < count + 1)
      → clean_loop env answers p filter count i (sm ∷ msgs) cache ≡ (
          clean_one env (answers i) p sm cache >>= λ x.
          clean_loop env answers p filter (count + 1) (suc i) msgs x.1 >>= λ y.
          done (x.0 ∷ y.0, y.1))
  unfolding clean_loop
  clean_loop-step answers p filter once count i sm msgs cache k c room =
      let t : ltb_ℤ p.conf.setting.once_max (pos (count + 1)) ≡ false = ground arith in rw (c, t)

  clean_loop-out :
      (answers : ℕ → Node) (p : MpoolQueue) (filter : List Address) (count i : ℕ)
      (sm : SignedMessage) (msgs : List SignedMessage) (cache : List (Address × Cid))
      → contains filter sm.message.from ≡ false
      → clean_loop env answers p filter count i (sm ∷ msgs) cache
        ≡ clean_loop env answers p filter count (suc i) msgs cache
  unfolding clean_loop
  clean_loop-out answers p filter count i sm msgs cache c = rw c

  clean_loop-nil :
      (answers : ℕ → Node) (p : MpoolQueue) (filter : List Address) (count i : ℕ)
      (cache : List (Address × Cid))
      → clean_loop env answers p filter count i [] cache ≡ done ([], cache)
  unfolding clean_loop
  clean_loop-nil answers p filter count i cache = refl

  -- What the results of a loop satisfy, from `count` selected messages on.
  abbrev AreJobs : MpoolQueue → ℕ → List SignedMessage → List Job × List (Address × Cid) → Type 0
  AreJobs p n chosen result = (messages result.0 ≡ take n chosen) × AtFee p.fees.feecap result.0

  clean_loop-AreJobs :
      (answers : ℕ → Node) (p : MpoolQueue) (filter : List Address) (once count i : ℕ)
      (msgs : List SignedMessage) (cache : List (Address × Cid))
      (result : List Job × List (Address × Cid))
      → p.conf.setting.once_max ≡ pos once
      → clean_loop env answers p filter count i msgs cache ≡ done result
      → AreJobs p (once - count) (selected filter msgs) result
  clean_loop-AreJobs answers p filter once count i [] cache result k h =
      subst (AreJobs p (once - count) [])
        (done-injective (sym (clean_loop-nil answers p filter count i cache) ∙ h))
        (sym (take_nil (once - count)), tt)
  clean_loop-AreJobs answers p filter once count i (sm ∷ msgs) cache result k h =
      elim (Bool-cases (contains filter sm.message.from)) [
        | inr out ↦ rw out (
            clean_loop-AreJobs answers p filter once count (suc i) msgs cache result k
              (sym (clean_loop-out answers p filter count i sm msgs cache out) ∙ h))
        | inl chosen ↦ elim (dec_lt once (count + 1)) [
          | yes full ↦
              let e : once - count ≡ 0 = omega arith in
              let stop =
                clean_loop-full answers p filter once count i sm msgs cache k chosen full in
              rw e (
                subst (AreJobs p 0 (selected filter (sm ∷ msgs))) (done-injective (sym stop ∙ h))
                  (refl, tt))
          | no room ↦
              let step =
                clean_loop-step answers p filter once count i sm msgs cache k chosen room in
              let (first, e, more) =
                Run->>=-eq-done (clean_one env (answers i) p sm cache) _ (sym step ∙ h) in
              let (rest, f, last) =
                Run->>=-eq-done (clean_loop env answers p filter (count + 1) (suc i) msgs first.1) _
                  more in
              let own = clean_one-msg (answers i) p sm cache first.1 first.0 e in
              let ih =
                clean_loop-AreJobs answers p filter once (count + 1) (suc i) msgs first.1 rest k
                  f in
              let n : once - count ≡ suc (once - (count + 1)) = omega arith in
              rw (n, chosen)
                (subst (AreJobs p (suc (once - (count + 1))) (sm ∷ selected filter msgs))
                  (done-injective last) (ap₂ (λ x xs. x ∷ xs) own.0 ih.0, (own.1, ih.1)))
        ]
      ]

  mpool_clean-step :
      (parse : String → Result Address) (node : Node) (answers : ℕ → Node) (p : MpoolQueue)
      (filter : List Address) (msgs : List SignedMessage)
      → parse_filter parse p.conf.setting.addresses ≡ ok filter
      → node.mpool_pending ≡ ok msgs
      → mpool_clean env parse node answers p ≡ (
          clean_loop env answers p filter 0 0 msgs p.code_cache >>= λ x.
          done (x.0, record p { code_cache = x.1 }))
  unfolding mpool_clean
  mpool_clean-step parse node answers p filter msgs e f = rw (e, f, mpool_clean)

  abbrev AreCleaned : MpoolQueue → ℕ → List SignedMessage → List Job × MpoolQueue → Type 0
  AreCleaned p once chosen r =
      (messages r.0 ≡ take once chosen)
      × AtFee p.fees.feecap r.0
      × (r.1 ≡ record p { code_cache = r.1.code_cache })

  -- Where `MpoolClean` returns for a pool that the node gives and addresses that parse, it has
  -- started one job for each of the first OnceMax pending messages from the configured addresses,
  -- in the order of the pool, each with the current cap as its fee; apart from the code cache it
  -- leaves the state as it is. The condition is that OnceMax is not negative.
  pub mpool_clean-AreJobs :
      (parse : String → Result Address) (node : Node) (answers : ℕ → Node) (p q : MpoolQueue)
      (once : ℕ) (filter : List Address) (msgs : List SignedMessage) (jobs : List Job)
      → p.conf.setting.once_max ≡ pos once
      → parse_filter parse p.conf.setting.addresses ≡ ok filter
      → node.mpool_pending ≡ ok msgs
      → mpool_clean env parse node answers p ≡ done (jobs, q)
      → (messages jobs ≡ take once (selected filter msgs))
        × AtFee p.fees.feecap jobs
        × (q ≡ record p { code_cache = q.code_cache })
  mpool_clean-AreJobs parse node answers p q once filter msgs jobs k e f h =
      let step = mpool_clean-step parse node answers p filter msgs e f in
      let (result, g, last) =
        Run->>=-eq-done (clean_loop env answers p filter 0 0 msgs p.code_cache) _ (sym step ∙ h) in
      let z : once - 0 ≡ once = omega arith in
      let jobs_of = clean_loop-AreJobs answers p filter once 0 0 msgs p.code_cache result k g in
      let (a, b) = subst (λ n. AreJobs p n (selected filter msgs) result) z jobs_of in
      subst (AreCleaned p once (selected filter msgs)) (done-injective last) (a, b, refl)
