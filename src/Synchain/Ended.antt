-- ===== src/Synchain/Ended.antt =====
-- The jobs of a tick end with their heights stored, for every order of their steps.
use lotus_tools.Prelude.{
  ℕ, zero, suc, ◌≡◌, refl, ◌∙◌, ap, subst, ℤ, true, List, [], ◌∷◌, map, Run, done, All,
}
use lotus_tools.Node.{ChainTipSet}
use lotus_tools.Convert.Traces.{InvocResult}
use lotus_tools.Synchain.Database.{Database, Documented}
use lotus_tools.Synchain.Jobs.{TipSet, Answer}
use lotus_tools.Synchain.Interleaved.{
  Progress, begun, traced, ended, height_of, step, step_at, run_schedule, finish, run_interleaved,
}
use lotus_tools.Synchain.Growing.{
  Growing, IsRight, IsFine, IsFine-Grows, All-Grows, IsKept, IsKept-refl, IsKept-trans, Later,
  Later-height_of, step-IsFine,
}

module _ {S : Type 0} (db : Database S TipSet InvocResult) (d : Documented db) (g : Growing db)
    (convert : ChainTipSet → Run TipSet) where
  -- Some steps of some jobs.
  abbrev pub Steps : List Progress → S → Run (List Progress × S) → Type 0
  Steps ws s r =
      (ws' : List Progress) × (s' : S) × (r ≡ done (ws', s'))
      × All (IsFine db d g convert s') ws'
      × IsKept db d g convert s s'
      × (map height_of ws' ≡ map height_of ws)

  step_at-Steps :
      (i : ℕ) (ws : List Progress) (s : S)
      → All (IsFine db d g convert s) ws
      → Steps ws s (step_at db convert i ws s)
  unfolding step_at
  step_at-Steps i [] s fs = ([], s, refl, tt, IsKept-refl db d g convert s, refl)
  step_at-Steps zero (w ∷ ws) s (f, fs) =
      let (w', s', e, f', kept, later) = step-IsFine db d g convert w s f in
      (
        w' ∷ ws,
        s',
        rw e refl,
        (f', All-Grows db d g convert ws s s' kept.0 fs),
        kept,
        ap (λ h. h ∷ map height_of ws) (Later-height_of db d g convert w w' later),
      )
  step_at-Steps (suc i) (w ∷ ws) s (f, fs) =
      let (ws', s', e, fs', kept, same) = step_at-Steps i ws s fs in
      (
        w ∷ ws',
        s',
        rw e refl,
        (IsFine-Grows db d g convert w s s' kept.0 f, fs'),
        kept,
        ap (λ hs. height_of w ∷ hs) same,
      )

  run_schedule-Steps :
      (is : List ℕ) (ws : List Progress) (s : S)
      → All (IsFine db d g convert s) ws
      → Steps ws s (run_schedule db convert is ws s)
  unfolding run_schedule
  run_schedule-Steps [] ws s fs = (ws, s, refl, fs, IsKept-refl db d g convert s, refl)
  run_schedule-Steps (i ∷ is) ws s fs =
      let (ws1, s1, e, fs1, kept1, same1) = step_at-Steps i ws s fs in
      let (ws2, s2, f, fs2, kept2, same2) = run_schedule-Steps is ws1 s1 fs1 in
      (ws2, s2, rw e f, fs2, IsKept-trans db d g convert s s1 s2 kept1 kept2, same2 ∙ same1)

  -- The jobs for some heights have ended.
  abbrev pub Ended : List ℤ → S → Run S → Type 0
  Ended heights s r =
      (s' : S) × (r ≡ done s')
      × All (λ h. db.has_block h s' ≡ true) heights
      × IsKept db d g convert s s'

  found_at_end :
      (w w1 w2 : Progress) (s : S)
      → Later db d g convert w w1
      → Later db d g convert w1 w2
      → IsFine db d g convert s w2
      → db.has_block (height_of w) s ≡ true
  found_at_end (begun h a) w1 w2 s (ts, e) later f =
      let end : w2 ≡ ended h = subst (λ w. Later db d g convert w w2) e later in
      subst (IsFine db d g convert s) end f
  found_at_end (traced h ts) w1 w2 s e later f =
      let end : w2 ≡ ended h = subst (λ w. Later db d g convert w w2) e later in
      subst (IsFine db d g convert s) end f
  found_at_end (ended h) w1 w2 s e later f =
      let end : w2 ≡ ended h = subst (λ w. Later db d g convert w w2) e later in
      subst (IsFine db d g convert s) end f

  two_steps :
      (w : Progress) (s : S)
      → IsFine db d g convert s w
      → (w1 : Progress) × (s1 : S) × (w2 : Progress) × (s2 : S) × (step db convert w s
          ≡ done (w1, s1))
        × (step db convert w1 s1 ≡ done (w2, s2))
        × (db.has_block (height_of w) s2 ≡ true)
        × IsKept db d g convert s s2
  two_steps w s f =
      let (w1, s1, e1, f1, kept1, later1) = step-IsFine db d g convert w s f in
      let (w2, s2, e2, f2, kept2, later2) = step-IsFine db d g convert w1 s1 f1 in
      (
        w1,
        s1,
        w2,
        s2,
        e1,
        e2,
        found_at_end w w1 w2 s2 later1 later2 f2,
        IsKept-trans db d g convert s s1 s2 kept1 kept2,
      )

  finish-Ended :
      (ws : List Progress) (s : S)
      → All (IsFine db d g convert s) ws
      → Ended (map height_of ws) s (finish db convert ws s)
  unfolding finish
  finish-Ended [] s fs = (s, refl, tt, IsKept-refl db d g convert s)
  finish-Ended (w ∷ ws) s (f, fs) =
      let (w1, s1, w2, s2, e1, e2, found, kept) = two_steps w s f in
      let (s', e, all, kept') = finish-Ended ws s2 (All-Grows db d g convert ws s s2 kept.0 fs) in
      (
        s',
        rw (e1, e2) e,
        (kept'.0 (height_of w) found, all),
        IsKept-trans db d g convert s s2 s' kept kept',
      )

  begun-IsFine :
      (answer : ℤ → Answer) (heights : List ℤ) (s : S)
      → ((h : ℤ) → IsRight db d g convert h (answer h))
      → All (IsFine db d g convert s) (map (λ h. begun h (answer h)) heights)
  begun-IsFine answer [] s all = tt
  begun-IsFine answer (h ∷ heights) s all = (all h, begun-IsFine answer heights s all)

  map-height_of :
      (answer : ℤ → Answer) (heights : List ℤ)
      → map height_of (map (λ h. begun h (answer h)) heights) ≡ heights
  map-height_of answer [] = refl
  map-height_of answer (h ∷ heights) = ap (λ hs. h ∷ hs) (map-height_of answer heights)

  -- Whatever the order of their steps, the jobs for some heights end, with every one of these heights
  -- in the database, no height lost and the config collection as it was. The conditions: the database
  -- behaves as documented and can be reached, so that its insertions succeed; for each height the node
  -- gives a tip set that has a block and whose conversion returns a document with that height, so that
  -- there is none without a block of its own.
  pub run_interleaved-Ended :
      (answer : ℤ → Answer) (schedule : List ℕ) (heights : List ℤ) (s : S)
      → ((h : ℤ) → IsRight db d g convert h (answer h))
      → Ended heights s (run_interleaved db convert answer schedule heights s)
  unfolding run_interleaved
  run_interleaved-Ended answer schedule heights s all =
      let jobs = map (λ h. begun h (answer h)) heights in
      let (ws, s1, e, fs, kept, same) =
        run_schedule-Steps schedule jobs s (begun-IsFine answer heights s all) in
      let (s2, f, found, kept') = finish-Ended ws s1 fs in
      (
        s2,
        rw e f,
        subst (All (λ h. db.has_block h s2 ≡ true)) (same ∙ map-height_of answer heights) found,
        IsKept-trans db d g convert s s1 s2 kept kept',
      )
