-- ===== src/Synchain/Reaches.antt =====
-- The synchroniser comes to the head of the chain.
use lotus_tools.Prelude.{
  ℕ, zero, suc, ◌+◌, ◌*◌, ◌≤◌, ◌<◌, ℤ, pos, Bool, true, false, ◌≡◌, refl, ◌∙◌, inl, inr, List, [],
  ◌∷◌, length, ok, Run, done, arith, ◌≤ℤ◌, bound64, ◌⊎◌,
}
use lotus_tools.Synchain.Database.{SyncConfig, Database, Documented}
use lotus_tools.Synchain.Defs.{synced, is_past, sync_tick}
use lotus_tools.Synchain.Heights.{positives}
use lotus_tools.Synchain.Window.{missing}
use lotus_tools.Synchain.Progress.{Advances, WorksAside, sync_tick-Advances}
use lotus_tools.Synchain.Rounds.{Event, timer, Loops, do_sync, after_tick}

-- What one tick finds: the head less two, what the database answers, and what the jobs do.
pub record Round (S : Type 0) : Type 0 where
  pub head : ℕ
  pub has : ℤ → Bool
  pub work : List ℤ → S → Run S

abbrev pub events : {S : Type 0} → List (Round S) → List (Event S)
events [] = []
events (r ∷ rs) = timer (ok (pos (r.head + 2))) r.has r.work ∷ events rs

is_past_never : (conf : SyncConfig) (z : ℤ) → conf.stop_height ≤ℤ pos 0 → is_past conf z ≡ false
unfolding is_past
is_past_never conf z h = ground arith

length-missing : (has : ℤ → Bool) (i n : ℕ) → length (missing has i n) ≤ n
length-missing has i zero = omega arith
length-missing has i (suc n) = ground (arith, length-missing has (suc i) n)

module _ {S B M : Type 0} (db : Database S B M) (d : Documented db) (conf : SyncConfig) where
  -- The rounds that the synchroniser meets: no head falls below `target` or leaves the int64
  -- numbers, and the jobs return and leave the config collection alone.
  abbrev pub AllReach : ℕ → List (Round S) → Type 0
  AllReach target [] = Unit
  AllReach target (r ∷ rs) =
      (target ≤ r.head) × (r.head + 3 < bound64) × WorksAside db d r.work × AllReach target rs

  -- The loop still runs, and the only positive height of the database is at least `target`, or at
  -- least `gained` above a.
  abbrev pub Reaches : ℕ → ℕ → ℕ → Run (Loops S) → Type 0
  Reaches target gained a r =
      (b : ℕ) × (s : S) × (r ≡ done (record { running = true; store = s }))
      × (positives (d.configs s) ≡ pos b ∷ [])
      × (a ≤ b)
      × ((target ≤ b) ⊎ (a + gained ≤ b))

  do_sync_step :
      (r : Round S) (rs : List (Round S)) (s s' : S) (heights : List ℤ)
      → sync_tick db conf (ok (pos (r.head + 2))) r.has r.work s ≡ done (synced heights s')
      → do_sync db conf (events (r ∷ rs)) s ≡ do_sync db conf (events rs) s'
  unfolding do_sync after_tick
  do_sync_step r rs s s' heights e = rw (e, do_sync) refl

  advanced :
      (has : ℤ → Bool) (once head a target : ℕ) {r : Run _}
      → (p : Advances db d has once head a r) → target ≤ head
      → (target ≤ a + p.n) ⊎ (a + suc once ≤ a + p.n)
  advanced has once head a target p h = elim p.ends [
    | inl e ↦ inl (omega arith)
    | inr (absent, full) ↦ inr (omega (arith, length-missing has (suc a) p.n))
  ]

  positive_one : (b : ℕ) → 0 < b → positives (pos b ∷ []) ≡ pos b ∷ []
  positive_one b h = ground arith

  pub do_sync-Reaches :
      (once target a : ℕ) (rs : List (Round S)) (s : S)
      → conf.max_once ≡ pos once
      → conf.stop_height ≤ℤ pos 0
      → AllReach target rs
      → 0 < a
      → suc a < bound64
      → positives (d.configs s) ≡ pos a ∷ []
      → Reaches target (length rs * suc once) a (do_sync db conf (events rs) s)
  do_sync-Reaches once target a [] s k never all p fits stored =
      (a, s, unfold do_sync in refl, stored, omega arith, inr (omega arith))
  do_sync-Reaches once target a (r ∷ rs) s k never (above, fits_head, aside, all) p fits stored =
      let t =
        sync_tick-Advances db d conf r.has r.work once r.head a s (omega arith) fits k aside stored
          (is_past_never conf (pos a) never) in
      let (b, s'', e, stored', grows, reached) =
        do_sync-Reaches once target (a + t.n) rs t.s k never all (omega arith)
          (elim t.within [ inl z ↦ omega arith | inr w ↦ omega arith ])
          (t.stored ∙ positive_one (a + t.n) (omega arith)) in
      (
        b,
        s'',
        do_sync_step r rs s t.s (missing r.has (suc a) t.n) t.result ∙ e,
        stored',
        omega arith,
        elim reached [
          | inl top ↦ inl top
          | inr more ↦ elim (advanced r.has once r.head a target t above) [
            | inl top ↦ inl (omega arith)
            | inr step ↦ inr (omega arith)
          ]
        ],
      )

  -- The loop of `DoSync` comes to the head: after enough timer values, where none of the chain heads
  -- that it is answered lies below `target` + 2, the loop still runs and the height that the database
  -- holds is at least `target`. It is enough that the number of values, times one more than
  -- MaxOnce, covers the distance. The conditions: a database as documented with a as its only
  -- positive height, jobs that return and leave that collection alone, no height to stop at, a
  -- MaxOnce that is not negative, and heights that fit an int64.
  pub do_sync_reaches_target :
      (once target a : ℕ) (rs : List (Round S)) (s : S)
      → conf.max_once ≡ pos once
      → conf.stop_height ≤ℤ pos 0
      → AllReach target rs
      → 0 < a
      → suc a < bound64
      → positives (d.configs s) ≡ pos a ∷ []
      → target ≤ a + length rs * suc once
      → (b : ℕ) × (s' : S) × (do_sync db conf (events rs) s
          ≡ done (record { running = true; store = s' }))
        × (positives (d.configs s') ≡ pos b ∷ [])
        × (target ≤ b)
  do_sync_reaches_target once target a rs s k never all p fits stored enough =
      let (b, s', e, stored', grows, reached) =
        do_sync-Reaches once target a rs s k never all p fits stored in
      (b, s', e, stored', elim reached [ inl top ↦ top | inr more ↦ omega arith ])
