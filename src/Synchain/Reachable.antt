-- ===== src/Synchain/Reachable.antt =====
-- Every state of the database that the loop of `DoSync` can come to.
use lotus_tools.Prelude.{
  ℕ, suc, ◌+◌, ◌-◌, ◌<◌, ◌≤◌, ◌≡◌, refl, ◌∙◌, ap, sym, subst, ◌⊎◌, inl, inr, dec_lt, ℤ, pos, String,
  Bool, true, Bool-cases, List, [], ◌∷◌, ok, err, Run, Run->>=-eq-done, done-injective, done, ◌>>=◌,
  arith, bound64, ltb, if◌then◌else◌, sub64,
}
use lotus_tools.Node.{ChainTipSet}
use lotus_tools.Convert.Traces.{InvocResult}
use lotus_tools.Synchain.Database.{SyncConfig, Database, Documented}
use lotus_tools.Synchain.Defs.{
  Tick, no_height, reconnected, stopped, synced, is_past, sync_tick, set_sync_height,
}
use lotus_tools.Synchain.Heights.{positives, get_sync_height_found}
use lotus_tools.Synchain.Restart.{sync_tick-reconnected, sync_tick-stuck}
use lotus_tools.Synchain.Jobs.{TipSet}
use lotus_tools.Synchain.Rounds.{after_tick}
use lotus_tools.Synchain.Interleaved.{run_interleaved}
use lotus_tools.Synchain.Growing.{Grows, Growing}
use lotus_tools.Synchain.NoGap.{set_sync_height-Grows}
use lotus_tools.Synchain.Gapless.{Meets, tick-Fills}

module _ {S : Type 0} (db : Database S TipSet InvocResult) (d : Documented db) (g : Growing db)
    (convert : ChainTipSet → Run TipSet) (conf : SyncConfig) (once : ℕ) where
  -- What one value of the timer does, where the node answers with a head and where it does not.
  pub data SyncStep (s s' : S) : Type 0 where
    answered :
        (m : Meets db d g convert conf once s) (t : Tick db)
        → sync_tick db conf
            (ok (pos (m.head + 2)))
            m.has
            (run_interleaved db convert m.answer m.schedule)
            s
          ≡ done t
        → (after_tick db s t).store ≡ s'
        → SyncStep s s'
    unanswered :
        (e : String) (has : ℤ → Bool) (work : List ℤ → S → Run S) (t : Tick db)
        → sync_tick db conf (err e) has work s ≡ done t
        → (after_tick db s t).store ≡ s'
        → SyncStep s s'

  pub data Syncs (s : S) : S → Type 0 where
    here : Syncs s s
    next : {t u : S} → Syncs s t → SyncStep t u → Syncs s u

  -- The database has no positive height, or one, with every height above `low` up to it in the
  -- blocks collection.
  abbrev pub IsGapless : ℕ → S → Type 0
  IsGapless low s =
      (positives (d.configs s) ≡ [])
      ⊎ ((a : ℕ) × (suc a < bound64)
          × (positives (d.configs s) ≡ pos a ∷ [])
          × ((j : ℕ) → low < j → j ≤ a → db.has_block (pos j) s ≡ true))

  after_no_height : (s : S) (t : Tick db) → t ≡ no_height → (after_tick db s t).store ≡ s
  unfolding after_tick
  after_no_height s t e = rw e refl

  after_stopped : (s : S) (t : Tick db) → t ≡ stopped → (after_tick db s t).store ≡ s
  unfolding after_tick
  after_stopped s t e = rw e refl

  after_synced :
      (s : S) (t : Tick db) (hs : List ℤ) (s' : S)
      → t ≡ synced hs s'
      → (after_tick db s t).store ≡ s'
  unfolding after_tick
  after_synced s t hs s' e = rw e refl

  after_reconnected :
      (s : S) (t : Tick db) (s' : S) → t ≡ reconnected s' → (after_tick db s t).store ≡ s'
  unfolding after_tick
  after_reconnected s t s' e = rw e refl

  sync_tick-stopped :
      (tip a : ℤ) (has : ℤ → Bool) (work : List ℤ → S → Run S) (s : S)
      → positives (d.configs s) ≡ a ∷ []
      → is_past conf a ≡ true
      → sync_tick db conf (ok tip) has work s ≡ done stopped
  unfolding sync_tick
  sync_tick-stopped tip a has work s stored past =
      rw (get_sync_height_found db d s stored, sync_tick) (rw past refl)

  IsGapless-tick :
      (low n a : ℕ) (s s' : S)
      → (suc (a + n) < bound64)
      → positives (d.configs s') ≡ positives (pos (a + n) ∷ [])
      → Grows db s s'
      → ((j : ℕ) → j < n → db.has_block (pos (suc a + j)) s' ≡ true)
      → ((j : ℕ) → low < j → j ≤ a → db.has_block (pos j) s ≡ true)
      → IsGapless low s'
  IsGapless-tick low n a s s' small stored grows filled before = elim (dec_lt 0 (a + n)) [
    | no zero ↦ inl (stored ∙ ground arith)
    | yes above ↦ inr (
      a + n,
      small,
      stored ∙ ground arith,
      λ j lo hi. elim (dec_lt a j) [
        | no old ↦ grows (pos j) (before j lo (omega arith))
        | yes new ↦
            let back : suc a + (j - suc a) ≡ j = omega arith in
            subst (λ i. db.has_block (pos i) s' ≡ true) back (filled (j - suc a) (omega arith))
      ],
    )
  ]

  stays :
      (low : ℕ) (s s' : S) (t : Tick db)
      → (after_tick db s t).store ≡ s
      → (after_tick db s t).store ≡ s'
      → IsGapless low s
      → IsGapless low s'
  stays low s s' t e f h = subst (IsGapless low) (sym e ∙ f) h

  sync_tick-lost :
      (x : String) (a : ℤ) (has : ℤ → Bool) (work : List ℤ → S → Run S) (s : S)
      → positives (d.configs s) ≡ a ∷ []
      → sync_tick db conf (err x) has work s
        ≡ (set_sync_height db (sub64 a (pos 10)) s >>= λ s'. done (reconnected s'))
  unfolding sync_tick
  sync_tick-lost x a has work s stored = rw (get_sync_height_found db d s stored, sync_tick) refl

  -- The database after going back has the heights of the one before.
  lost-Grows :
      (x : String) (a : ℤ) (has : ℤ → Bool) (work : List ℤ → S → Run S) (s s' : S)
      → positives (d.configs s) ≡ a ∷ []
      → sync_tick db conf (err x) has work s ≡ done (reconnected s')
      → Grows db s s'
  unfolding after_tick
  lost-Grows x a has work s s' stored e =
      let (s1, f, r) =
        Run->>=-eq-done (set_sync_height db (sub64 a (pos 10)) s) (λ s'. done (reconnected s'))
          (sym (sync_tick-lost x a has work s stored) ∙ e) in
      let same : s1 ≡ s' = ap (λ t. (after_tick db s t).store) (done-injective r) in
      subst (Grows db s) same (set_sync_height-Grows db g (sub64 a (pos 10)) s s1 f)

  -- Going back from a: the heights up to the new one are among those up to a.
  IsGapless-back :
      (low a : ℕ) (s s' : S)
      → suc a < bound64
      → positives (d.configs s') ≡ (if ltb 10 a then pos (a - 10) ∷ [] else [])
      → Grows db s s'
      → ((j : ℕ) → low < j → j ≤ a → db.has_block (pos j) s ≡ true)
      → IsGapless low s'
  IsGapless-back low a s s' small stored grows before = elim (Bool-cases (ltb 10 a)) [
    | inr few ↦ inl (stored ∙ rw few refl)
    | inl many ↦ inr (
      a - 10,
      omega arith,
      stored ∙ rw many refl,
      λ j lo hi. grows (pos j) (before j lo (omega arith)),
    )
  ]

  SyncStep-IsGapless :
      (low : ℕ) (s s' : S)
      → conf.max_once ≡ pos once
      → SyncStep s s'
      → IsGapless low s
      → IsGapless low s'
  SyncStep-IsGapless low s s' k (answered m t e f) (inl nothing) =
      let stuck =
        sync_tick-stuck db d conf (ok (pos (m.head + 2))) m.has
          (run_interleaved db convert m.answer m.schedule) s nothing in
      stays low s s' t (after_no_height s t (done-injective (sym e ∙ stuck))) f (inl nothing)
  SyncStep-IsGapless low s s' k (answered m t e f) (inr (a, small, stored, had)) =
      elim (Bool-cases (is_past conf (pos a))) [
        | inl past ↦
            let end =
              sync_tick-stopped (pos (m.head + 2)) (pos a) m.has
                (run_interleaved db convert m.answer m.schedule) s stored past in
            stays low s s' t (after_stopped s t (done-injective (sym e ∙ end))) f
              (inr (a, small, stored, had))
        | inr near ↦
            let (n, hs, s1, r, stored', within, fills) =
              tick-Fills db d g convert conf once s m a small k stored near in
            let same = after_synced s t hs s1 (done-injective (sym e ∙ r)) in
            subst (IsGapless low) (sym same ∙ f) (
              IsGapless-tick low n a s s1
                (elim within [ inl z ↦ omega arith | inr w ↦ omega (arith, m.fits) ]) stored'
                fills.0 fills.1 had)
      ]
  SyncStep-IsGapless low s s' k (unanswered x has work t e f) (inl nothing) =
      let stuck = sync_tick-stuck db d conf (err x) has work s nothing in
      stays low s s' t (after_no_height s t (done-injective (sym e ∙ stuck))) f (inl nothing)
  SyncStep-IsGapless low s s' k (unanswered x has work t e f) (inr (a, small, stored, had)) =
      let (s1, r, stored') = sync_tick-reconnected db d conf has work x a s (omega arith) stored in
      let same = after_reconnected s t s1 (done-injective (sym e ∙ r)) in
      subst (IsGapless low) (sym same ∙ f)
        (IsGapless-back low a s s1 small stored' (lost-Grows x (pos a) has work s s1 stored r) had)

  -- The synchroniser leaves no gap: in every state that the loop of DoSync can come to, by timer
  -- values for which the node answers or does not and with the steps of a round's jobs in any order,
  -- the database has no positive stored height, or one a such that it has the block of every height
  -- above `low` up to a. The conditions: this holds at the start; the database behaves as
  -- documented and can be reached; MaxOnce is not negative; where the node answers with a head, it
  -- also gives a tip set with a block for each height that is started, of which the document has
  -- that height.
  pub Syncs-IsGapless :
      (low : ℕ) (s s' : S)
      → conf.max_once ≡ pos once
      → IsGapless low s
      → Syncs s s'
      → IsGapless low s'
  Syncs-IsGapless low s s' k h here = h
  Syncs-IsGapless low s s' k h (next {t} r st) =
      SyncStep-IsGapless low t s' k st (Syncs-IsGapless low s t k h r)
