-- ===== src/Synchain/Gapless.antt =====
-- The database has every height up to the stored one, whatever the node answers and however the
-- jobs are interleaved.
use lotus_tools.Prelude.{
  ℕ, suc, ◌+◌, ◌<◌, ◌≤◌, ◌≡◌, ◌∙◌, sym, subst, ◌⊎◌, ℤ, pos, Bool, true, false, List, [], ◌∷◌, ok,
  Run, done-injective, done, All, bound64,
}
use lotus_tools.Node.{ChainTipSet}
use lotus_tools.Convert.Traces.{InvocResult}
use lotus_tools.Synchain.Database.{SyncConfig, Database, Documented}
use lotus_tools.Synchain.Defs.{synced, is_past, sync_tick}
use lotus_tools.Synchain.Heights.{positives}
use lotus_tools.Synchain.Window.{missing}
use lotus_tools.Synchain.Progress.{WorksAside, sync_tick-from, sync_tick-Advances}
use lotus_tools.Synchain.Jobs.{TipSet, Answer}
use lotus_tools.Synchain.Interleaved.{run_interleaved}
use lotus_tools.Synchain.Growing.{Grows, Growing, IsRight}
use lotus_tools.Synchain.Ended.{run_interleaved-Ended}
use lotus_tools.Synchain.NoGap.{missing_or_had, sync_from_parts}

module _ {S : Type 0} (db : Database S TipSet InvocResult) (d : Documented db) (g : Growing db)
    (convert : ChainTipSet → Run TipSet) (conf : SyncConfig) (once : ℕ) where
  interleaved-WorksAside :
      (answer : ℤ → Answer) (schedule : List ℕ)
      → ((h : ℤ) → IsRight db d g convert h (answer h))
      → WorksAside db d (run_interleaved db convert answer schedule)
  interleaved-WorksAside answer schedule right heights s =
      let (s', e, all, kept) =
        run_interleaved-Ended db d g convert answer schedule heights s right in
      (s', e, kept.1)

  -- What a tick of the synchroniser meets: a head two above `head`, answers to the loop's question
  -- for a height that are true when the tick begins, right answers for the jobs, and a schedule
  -- of their steps.
  pub record Meets (s : S) : Type 0 where
    pub head : ℕ
    pub has : ℤ → Bool
    pub answer : ℤ → Answer
    pub schedule : List ℕ
    pub fits : head + 2 < bound64
    pub known : (h : ℤ) → has h ≡ true → db.has_block h s ≡ true
    pub right : (h : ℤ) → IsRight db d g convert h (answer h)

  All-Grows_of :
      (hs : List ℤ) (s s' : S)
      → Grows db s s'
      → All (λ h. db.has_block h s ≡ true) hs
      → All (λ h. db.has_block h s' ≡ true) hs
  All-Grows_of [] s s' k all = tt
  All-Grows_of (h ∷ hs) s s' k (a, all) = (k h a, All-Grows_of hs s s' k all)

  -- A tick that comes to n heights after a has them all in the database, and those from before.
  abbrev pub Fills : ℕ → ℕ → S → S → Type 0
  Fills a n s s' = Grows db s s' × ((j : ℕ) → j < n → db.has_block (pos (suc a + j)) s' ≡ true)

  pub tick-Fills :
      (s : S) (m : Meets s) (a : ℕ)
      → suc a < bound64
      → conf.max_once ≡ pos once
      → positives (d.configs s) ≡ pos a ∷ []
      → is_past conf (pos a) ≡ false
      → (n : ℕ) × (hs : List ℤ) × (s' : S) × (sync_tick db conf
            (ok (pos (m.head + 2)))
            m.has
            (run_interleaved db convert m.answer m.schedule)
            s
          ≡ done (synced hs s'))
        × (positives (d.configs s') ≡ positives (pos (a + n) ∷ []))
        × ((n ≡ 0) ⊎ (a + n ≤ m.head))
        × Fills a n s s'
  tick-Fills s m a small k stored near =
      let work = run_interleaved db convert m.answer m.schedule in
      let p =
        sync_tick-Advances db d conf m.has work once m.head a s m.fits small k
          (interleaved-WorksAside m.answer m.schedule m.right) stored near in
      let hs = missing m.has (suc a) p.n in
      let (l, after, before, worked, last) =
        sync_from_parts db g conf m.has work (pos a) (pos m.head) s
          (sym (sync_tick-from db d conf m.has work m.head a s m.fits stored near) ∙ p.result) in
      let (after', e, all, kept) =
        run_interleaved-Ended db d g convert m.answer m.schedule hs l.store m.right in
      let same : after' ≡ after = done-injective (sym e ∙ worked) in
      let grown : Grows db l.store after = subst (Grows db l.store) same kept.0 in
      let stays : Grows db s p.s = λ h f. last h (grown h (before h f)) in
      let started : All (λ h. db.has_block h p.s ≡ true) hs =
        All-Grows_of hs after p.s last
          (subst (λ t. All (λ h. db.has_block h t ≡ true) hs) same all) in
      (
        p.n,
        hs,
        p.s,
        p.result,
        p.stored,
        p.within,
        (
          stays,
          λ j lt.
              missing_or_had (λ h. db.has_block h p.s ≡ true) m.has (suc a) p.n j
                (λ h t. stays h (m.known h t)) started lt,
        ),
      )
