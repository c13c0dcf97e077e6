-- ===== src/Synchain/Aside.antt =====
-- The jobs of a tick and the config collection.
use lotus_tools.Prelude.{
  ◌<◌, ℤ, ◌≡◌, refl, ◌∙◌, Option, List, [], ◌∷◌, length, Result, Result-cases, inl, inr, ok, err,
  Run, done, arith, ap,
}
use lotus_tools.Node.{ChainTipSet}
use lotus_tools.Convert.Traces.{Invocation, InvocResult}
use lotus_tools.Synchain.Database.{Database, Documented}
use lotus_tools.Synchain.Jobs.{TipSet, Answer, insert_tip_set, sync_height, run_jobs}
use lotus_tools.Synchain.Stored.{after_messages, sync_height_done}
use lotus_tools.Synchain.Progress.{WorksAside}

module _ {S : Type 0} (db : Database S TipSet InvocResult) (d : Documented db)
    (convert : ChainTipSet → Run TipSet) where
  after_messages-configs :
      (computed : Result (List (Option Invocation))) (docs : List InvocResult) (s : S)
      → d.configs (after_messages db convert computed docs s) ≡ d.configs s
  after_messages-configs (err e) docs s = refl
  after_messages-configs (ok is) docs s = d.messages docs s

  insert-configs : (doc : TipSet) (s : S) → d.configs (insert_tip_set db doc s).0 ≡ d.configs s
  insert-configs doc s = elim (Result-cases (db.insert_block doc s)) [
    | inl (e, f) ↦ ground arith
    | inr (s', f) ↦ ground (arith, d.block doc s s' f)
  ]

  -- The node gives the tip set of a height, with a block in it, and it is converted.
  abbrev pub IsAnswered : Answer → Type 0
  IsAnswered a =
      (ts : ChainTipSet) × (a.tip_set ≡ ok ts)
      × (0 < length ts.blocks)
      × ((doc : TipSet) × (convert ts ≡ done doc))

  -- A job returns and leaves the collection alone.
  abbrev IsAside : S → Run S → Type 0
  IsAside s r = (s' : S) × (r ≡ done s') × (d.configs s' ≡ d.configs s)

  sync_height-IsAside :
      (a : Answer) (s : S)
      → IsAnswered a
      → IsAside s (sync_height db convert a.tip_set a.computed a.docs s)
  sync_height-IsAside a s (ts, t, h, found) =
      let (doc, c) = found in
      let before = after_messages db convert a.computed a.docs s in
      (
        (insert_tip_set db doc before).0,
        ap (λ r. sync_height db convert r a.computed a.docs s) t
            ∙ sync_height_done db convert ts a.computed a.docs doc s h c,
        insert-configs doc before ∙ after_messages-configs a.computed a.docs s,
      )

  -- Where the node answers for every height, the jobs of a tick return, and leave the stored height
  -- to the loop that started them.
  pub run_jobs-WorksAside :
      (answer : ℤ → Answer)
      → ((h : ℤ) → IsAnswered (answer h))
      → WorksAside db d (run_jobs db convert answer)
  unfolding run_jobs
  run_jobs-WorksAside answer all [] s = (s, refl, refl)
  run_jobs-WorksAside answer all (h ∷ heights) s =
      let (s1, e, k) = sync_height-IsAside (answer h) s (all h) in
      let (s2, f, l) = run_jobs-WorksAside answer all heights s1 in (s2, rw e f, l ∙ k)
