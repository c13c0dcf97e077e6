-- ===== src/Synchain/Restart.antt =====
-- Where the height goes back: the start of the program, and a tick whose node does not answer.
use lotus_tools.Prelude.{
  ℕ, ◌⊎◌, inl, inr, dec_lt, ◌-◌, ◌≤◌, ◌<◌, ℤ, pos, String, Bool, true, false, ◌≡◌, refl, sym, ap,
  subst, ◌∙◌, List, [], ◌∷◌, length, Result, ok, err, Run, done, arith, if◌then◌else◌, ltb, add64,
  sub64, ◌-ℤ◌, bound64, wrap64,
}
use lotus_tools.Synchain.Database.{SyncConfig, Database, Documented}
use lotus_tools.Synchain.Defs.{
  no_height, reconnected, get_sync_height, set_sync_height, sync_tick, start,
}
use lotus_tools.Synchain.Heights.{
  IsSingle, positives, get_sync_height_found, get_sync_height_none, set_sync_height-SetsTo,
}

-- The positive heights after going back from a by k.
step_back :
    (a k : ℕ)
    → a < bound64
    → k < bound64
    → positives (sub64 (pos a) (pos k) ∷ []) ≡ (if ltb k a then pos (a - k) ∷ [] else [])
unfolding sub64 wrap64 ◌-ℤ◌
step_back a k h j = ground arith

module _ {S B M : Type 0} (db : Database S B M) (d : Documented db) where
  sync_tick-lost :
      (conf : SyncConfig) (has : ℤ → Bool) (work : List ℤ → S → Run S) (e : String) (a : ℕ)
      (s s' : S)
      → positives (d.configs s) ≡ pos a ∷ []
      → set_sync_height db (sub64 (pos a) (pos 10)) s ≡ done s'
      → sync_tick db conf (err e) has work s ≡ done (reconnected s')
  unfolding sync_tick
  sync_tick-lost conf has work e a s s' stored f =
      rw (get_sync_height_found db d s stored, sync_tick) (rw f)

  pub sync_tick-stuck :
      (conf : SyncConfig) (head : Result ℤ) (has : ℤ → Bool) (work : List ℤ → S → Run S) (s : S)
      → positives (d.configs s) ≡ []
      → sync_tick db conf head has work s ≡ done no_height
  unfolding sync_tick
  sync_tick-stuck conf head has work s none_stored =
      let (text, g) = get_sync_height_none db d s none_stored in rw (g, sync_tick)

  -- Where the node does not answer and is connected to again, a tick that reads the height a leaves
  -- a - 10 as the only positive height, or none if that is not positive. The conditions: a database
  -- as documented with a as its only positive height, and an a that fits an int64.
  pub sync_tick-reconnected :
      (conf : SyncConfig) (has : ℤ → Bool) (work : List ℤ → S → Run S) (e : String) (a : ℕ) (s : S)
      → a < bound64
      → positives (d.configs s) ≡ pos a ∷ []
      → (s' : S) × (sync_tick db conf (err e) has work s ≡ done (reconnected s'))
        × (positives (d.configs s') ≡ (if ltb 10 a then pos (a - 10) ∷ [] else []))
  sync_tick-reconnected conf has work e a s fits stored =
      let single : IsSingle (d.configs s) =
        subst (λ xs. length xs ≤ 1) (sym stored) (omega arith) in
      let (s', f, after) = set_sync_height-SetsTo db d (sub64 (pos a) (pos 10)) s single in
      (
        s',
        sync_tick-lost conf has work e a s s' stored f,
        after ∙ step_back a 10 fits (omega arith),
      )

  pub start-set :
      (conf : SyncConfig) (s : S) {h : ℕ}
      → conf.height ≡ pos h
      → h < bound64
      → IsSingle (d.configs s)
      → (s' : S) × (start db conf s ≡ done s')
        × (positives (d.configs s') ≡ (if ltb 20 h then pos (h - 20) ∷ [] else []))
  unfolding start
  start-set conf s {h} e fits single =
      let lo = sub64 conf.height (pos 20) in
      let cleared = db.delete_blocks lo (add64 conf.height (pos 20)) s in
      let kept : d.configs cleared ≡ d.configs s = d.delete lo (add64 conf.height (pos 20)) s in
      let (s', f, after) =
        set_sync_height-SetsTo db d lo cleared (subst IsSingle (sym kept) single) in
      (
        s',
        f,
        after ∙ ap (λ z. positives (sub64 z (pos 20) ∷ [])) e ∙ step_back h 20 fits (omega arith),
      )

  -- The program starts twenty below the configured height h. Where h is above 20 it leaves
  -- h - 20 as the only positive height. Otherwise it leaves none, and from then on every tick ends
  -- without a height and changes nothing, whatever the node answers. The conditions: a database as
  -- documented with at most one positive height, and an h that is not negative and fits an int64.
  pub start_height :
      (conf : SyncConfig) (s : S) {h : ℕ}
      → conf.height ≡ pos h
      → h < bound64
      → IsSingle (d.configs s)
      → (s' : S) × (start db conf s ≡ done s')
        × (((20 < h) × (get_sync_height db s' ≡ ok (pos (h - 20))))
            ⊎ ((h ≤ 20)
                × ((head : Result ℤ) (has : ℤ → Bool) (work : List ℤ → S → Run S)
                    → sync_tick db conf head has work s' ≡ done no_height)))
  start_height conf s {h} e fits single =
      let (s', f, after) = start-set conf s e fits single in
      (
        s',
        f,
        elim (dec_lt 20 h) [
          | yes above ↦
              let t : ltb 20 h ≡ true = ground arith in
              inl (above, get_sync_height_found db d s' (after ∙ rw t refl))
          | no low ↦
              let t : ltb 20 h ≡ false = ground arith in
              inr (
                omega arith,
                λ head has work. sync_tick-stuck conf head has work s' (after ∙ rw t refl),
              )
        ],
      )
