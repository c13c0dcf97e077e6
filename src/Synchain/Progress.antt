-- ===== src/Synchain/Progress.antt =====
-- A whole tick of `DoSync`.
use lotus_tools.Prelude.{
  ℕ, suc, ◌+◌, ◌-◌, ◌≤◌, ◌<◌, ℤ, pos, Bool, false, ◌≡◌, refl, sym, ap, subst, ◌∙◌, inl, inr, List,
  [], ◌∷◌, length, ok, Run, done, arith, add64, add64_pos, sub64, sub64_pos, ◌-ℤ◌, pos_part,
  bound64, ◌⊎◌,
}
use lotus_tools.Synchain.Database.{SyncConfig, Database, Documented}
use lotus_tools.Synchain.Defs.{
  Loop, Tick, synced, set_sync_height, sync_rounds, is_past, sync_from, sync_tick,
}
use lotus_tools.Synchain.Heights.{
  IsSingle, positives, get_sync_height_found, set_sync_height-SetsTo,
}
use lotus_tools.Synchain.Window.{missing, Covers, sync_rounds-Ends}

module _ {S B M : Type 0} (db : Database S B M) (d : Documented db) where
  -- The started jobs return and leave the config collection alone.
  abbrev pub WorksAside : (List ℤ → S → Run S) → Type 0
  WorksAside work =
      (heights : List ℤ) (s : S)
      → (s' : S) × (work heights s ≡ done s') × (d.configs s' ≡ d.configs s)

  -- Where a tick from height a ends: after n heights, of which it has started the missing ones, at
  -- most one more than MaxOnce; n heights end at the height two below the head, or before the
  -- first missing height that is too many.
  pub record Advances (has : ℤ → Bool) (once head a : ℕ) (r : Run (Tick db)) : Type 0 where
    pub n : ℕ
    pub s : S
    pub result : r ≡ done (synced (missing has (suc a) n) s)
    pub stored : positives (d.configs s) ≡ positives (pos (a + n) ∷ [])
    pub within : (n ≡ 0) ⊎ (a + n ≤ head)
    pub limit : length (missing has (suc a) n) ≤ suc once
    pub ends :
        (head ≤ a + n)
        ⊎ ((has (pos (suc (a + n))) ≡ false) × (length (missing has (suc a) n) ≡ suc once))

  rounds_left : (head a : ℕ) → pos_part (pos head -ℤ pos a) ≡ head - a
  unfolding ◌-ℤ◌
  rounds_left head a = ground arith

  abbrev from_height : ℕ → S → Loop db
  from_height a s = record { last = pos a; todo = 0; started = []; store = s }

  sync_from-synced :
      (conf : SyncConfig) (has : ℤ → Bool) (work : List ℤ → S → Run S) (once head a : ℕ)
      (s s' s'' : S) (l : Loop db)
      → suc a < bound64
      → conf.max_once ≡ pos once
      → sync_rounds db (head - a) has (pos once) (pos head) (pos (suc a)) (from_height a s) ≡ done l
      → work l.started l.store ≡ done s'
      → set_sync_height db l.last s' ≡ done s''
      → sync_from db conf has work (pos a) (pos head) s ≡ done (synced l.started s'')
  unfolding sync_from
  sync_from-synced conf has work once head a s s' s'' l fits k f g h =
      let first : add64 (pos a) (pos 1) ≡ pos (suc a) =
        add64_pos a 1 (omega arith) ∙ ap pos (omega arith) in
      rw (first, rounds_left head a, k, f, g, h)

  synced-Advances :
      (has : ℤ → Bool) (once head a : ℕ) (fits : suc head < bound64) (s : S) (l : Loop db)
      (r : Run (Tick db))
      → r ≡ done (synced l.started s)
      → positives (d.configs s) ≡ positives (l.last ∷ [])
      → Covers db d has once head fits a 0 [] l
      → Advances has once head a r
  synced-Advances has once head a fits s l r e stored c = record {
    n = c.n;
    s = s;
    result = e ∙ ap (λ xs. done (synced xs s)) c.starts;
    stored = stored ∙ ap (λ z. positives (z ∷ [])) c.last;
    within = c.within;
    limit = omega (arith, c.counts, c.limit (omega arith));
    ends = elim c.ends [
      | inl e ↦ inl e
      | inr (absent, full) ↦ inr (absent, omega (arith, c.counts, c.limit (omega arith), full))
    ];
  }

  sync_from-Advances :
      (conf : SyncConfig) (has : ℤ → Bool) (work : List ℤ → S → Run S) (once head a : ℕ) (s : S)
      → suc head < bound64
      → suc a < bound64
      → conf.max_once ≡ pos once
      → WorksAside work
      → IsSingle (d.configs s)
      → Advances has once head a (sync_from db conf has work (pos a) (pos head) s)
  sync_from-Advances conf has work once head a s fits fits' k aside single =
      let (l, f, c) =
        sync_rounds-Ends db d has once head fits (head - a) a (from_height a s) (omega arith) refl
          single in
      let (s', g, same) = aside l.started l.store in
      let single' = subst IsSingle (sym same) c.single in
      let (s'', h, stored) = set_sync_height-SetsTo db d l.last s' single' in
      synced-Advances has once head a fits s'' l (sync_from db conf has work (pos a) (pos head) s)
        (sync_from-synced conf has work once head a s s' s'' l fits' k f g h) stored c

  pub sync_tick-from :
      (conf : SyncConfig) (has : ℤ → Bool) (work : List ℤ → S → Run S) (head a : ℕ) (s : S)
      → head + 2 < bound64
      → positives (d.configs s) ≡ pos a ∷ []
      → is_past conf (pos a) ≡ false
      → sync_tick db conf (ok (pos (head + 2))) has work s
        ≡ sync_from db conf has work (pos a) (pos head) s
  unfolding sync_tick
  sync_tick-from conf has work head a s fits stored near =
      let below : sub64 (pos (head + 2)) (pos 2) ≡ pos head =
        sub64_pos (head + 2) 2 fits (omega arith) ∙ ap pos (omega arith) in
      rw (get_sync_height_found db d s stored, sync_tick) (rw (near, below))

  -- A tick that reads the height a and a chain head two above `head`, with the stop height not
  -- passed, ends: it starts each height after a that the database lacks, in order and without a
  -- gap, up to `head` or up to one more than MaxOnce starts, and stores the height that it came
  -- to. The conditions: a database as documented with a as its only positive height, jobs that
  -- return and leave that collection alone, a MaxOnce that is not negative, and heights that fit
  -- an int64.
  pub sync_tick-Advances :
      (conf : SyncConfig) (has : ℤ → Bool) (work : List ℤ → S → Run S) (once head a : ℕ) (s : S)
      → head + 2 < bound64
      → suc a < bound64
      → conf.max_once ≡ pos once
      → WorksAside work
      → positives (d.configs s) ≡ pos a ∷ []
      → is_past conf (pos a) ≡ false
      → Advances has once head a (sync_tick db conf (ok (pos (head + 2))) has work s)
  sync_tick-Advances conf has work once head a s fits fits' k aside stored near =
      let single : IsSingle (d.configs s) =
        subst (λ xs. length xs ≤ 1) (sym stored) (omega arith) in
      subst (Advances has once head a)
        (sym (sync_tick-from conf has work head a s fits stored near))
        (sync_from-Advances conf has work once head a s (omega arith) fits' k aside single)
