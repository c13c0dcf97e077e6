-- ===== src/Synchain/Interleaved.antt =====
-- The jobs of a tick of `DoSync` as they run: each `syncHeight` first stores the messages of its
-- height and then its tip set, and the steps of different jobs come in any order. `wg.Wait` waits
-- for all of them.
use lotus_tools.Prelude.{
  ℕ, zero, suc, ◌≡◌, refl, ℤ, List, [], ◌∷◌, map, Result, inl, inr, ok, err, Run, Run-cases, done,
  panic, ◌>>=◌,
}
use lotus_tools.Node.{ChainTipSet}
use lotus_tools.Convert.Traces.{InvocResult}
use lotus_tools.Synchain.Database.{Database}
use lotus_tools.Synchain.Jobs.{
  TipSet, Answer, get_epoch_trace, insert_tip_set, sync_height_blocks, sync_height,
}

-- Where the job of a height is: before its messages are stored, before its tip set is, or at its
-- end.
pub data Progress : Type 0 where
  begun : ℤ → Answer → Progress
  traced : ℤ → ChainTipSet → Progress
  ended : ℤ → Progress

abbrev pub height_of : Progress → ℤ
height_of (begun h a) = h
height_of (traced h ts) = h
height_of (ended h) = h

module _ {S : Type 0} (db : Database S TipSet InvocResult)
    (convert : ChainTipSet → Run TipSet) where
  abbrev pub trace : ℤ → Answer → Result ChainTipSet → S → Run (Progress × S)
  trace h a (err _) s = panic
  trace h a (ok ts) s = get_epoch_trace db a.computed a.docs ts s >>= λ r. done (traced h ts, r.0)

  -- The next step of a job.
  unfoldable pub step : Progress → S → Run (Progress × S)
  step (begun h a) s = trace h a a.tip_set s
  step (traced h ts) s = convert ts >>= λ doc. done (ended h, (insert_tip_set db doc s).0)
  step (ended h) s = done (ended h, s)

  both_steps :
      (h : ℤ) (a : Answer) (r : Result ChainTipSet) (s : S)
      → (trace h a r s >>= λ p. step p.0 p.1 >>= λ q. done q.1)
        ≡ sync_height db convert r a.computed a.docs s
  unfolding step sync_height sync_height_blocks
  both_steps h a (err e) s = refl
  both_steps h a (ok ts) s = elim (Run-cases (get_epoch_trace db a.computed a.docs ts s)) [
    | inl e ↦ rw e refl
    | inr (p, e) ↦ elim (Run-cases (convert ts)) [
      | inl f ↦ rw (e, f) refl
      | inr (doc, f) ↦ rw (e, f) refl
    ]
  ]

  -- The two steps of a job make `syncHeight`.
  pub step-step :
      (h : ℤ) (a : Answer) (s : S)
      → (step (begun h a) s >>= λ r. step r.0 r.1 >>= λ q. done q.1)
        ≡ sync_height db convert a.tip_set a.computed a.docs s
  unfolding step
  step-step h a s = both_steps h a a.tip_set s

  -- A step of the i-th job.
  unfoldable pub step_at : ℕ → List Progress → S → Run (List Progress × S)
  step_at i [] s = done ([], s)
  step_at zero (w ∷ ws) s = step w s >>= λ r. done (r.0 ∷ ws, r.1)
  step_at (suc i) (w ∷ ws) s = step_at i ws s >>= λ r. done (w ∷ r.0, r.1)

  unfoldable pub run_schedule : List ℕ → List Progress → S → Run (List Progress × S)
  run_schedule [] ws s = done (ws, s)
  run_schedule (i ∷ is) ws s = step_at i ws s >>= λ r. run_schedule is r.0 r.1

  -- What is left of the jobs, one after the other.
  unfoldable pub finish : List Progress → S → Run S
  finish [] s = done s
  finish (w ∷ ws) s = step w s >>= λ r. step r.0 r.1 >>= λ q. finish ws q.1

  -- The jobs for some heights, by a schedule of their steps and then to their ends.
  unfoldable pub run_interleaved : (ℤ → Answer) → List ℕ → List ℤ → S → Run S
  run_interleaved answer schedule heights s =
      run_schedule schedule (map (λ h. begun h (answer h)) heights) s >>= λ r. finish r.0 r.1
