-- ===== src/Synchain/Defs.antt =====
-- height.go and the loop of `DoSync` in parseMessage.go. `abi.ChainEpoch` is an int64. The jobs that
-- a round starts run beside its loop and are waited for at its end; they read and write blocks and
-- messages only, so what the loop can see of them is what `heightHasSynced` answers for a height.
-- It asks once for every height, and the answers are an argument.
use lotus_tools.Prelude.{
  ℕ, zero, suc, ◌+◌, ℤ, pos, Bool, ◌&&◌, List, [], ◌∷◌, ◌++◌, Result, ok, err, Run, done, panic,
  ◌>>=◌, if◌then◌else◌, ltb_ℤ, leb_ℤ, add64, sub64, pos_part, ◌-ℤ◌,
}
use lotus_tools.Synchain.Database.{SyncConfig, Database}

-- Whether the height to stop at is passed.
unfoldable pub is_past : SyncConfig → ℤ → Bool
is_past conf height = ltb_ℤ (pos 0) conf.stop_height && ltb_ℤ conf.stop_height height

module _ {S B M : Type 0} (db : Database S B M) where
  -- `getSyncConfig` and `getSyncHeight`
  unfoldable pub get_sync_height : S → Result ℤ
  get_sync_height s = db.find_config s

  abbrev pub or_panic_update : Result S → Run S
  or_panic_update (err _) = panic
  or_panic_update (ok s) = done s

  unfoldable pub set_sync_height : ℤ → S → Run S
  set_sync_height next s = elim (get_sync_height s) [
    | err _ ↦ done (db.insert_config next s)
    | ok current ↦ or_panic_update (db.update_config current next s)
  ]

  unfoldable pub height_has_synced : ℤ → S → Bool
  height_has_synced height s = db.has_block height s

  -- The variables of the loop: the last height, the number of heights to do, those started, and
  -- the database.
  pub record Loop : Type 0 where
    pub last : ℤ
    pub todo : ℕ
    pub started : List ℤ
    pub store : S

  -- The loop over the heights from i on. `rounds` bounds the number of rounds.
  unfoldable pub sync_rounds : ℕ → (ℤ → Bool) → ℤ → ℤ → ℤ → Loop → Run Loop
  sync_rounds zero has max_once head i l = done l
  sync_rounds (suc rounds) has max_once head i l =
      let seen = (do
        store ← set_sync_height i l.store
        sync_rounds rounds has max_once head (add64 i (pos 1))
            (record l { last = i; store = store })) in
      let start =
        sync_rounds rounds has max_once head (add64 i (pos 1))
          (record l { last = i; todo = l.todo + 1; started = l.started ++ i ∷ [] }) in
      if leb_ℤ i head
      then (if has i then seen else (if ltb_ℤ max_once (pos l.todo) then done l else start))
      else done l

  -- How a tick ends.
  pub data Tick : Type 0 where
    no_height : Tick
    reconnected : S → Tick
    stopped : Tick
    synced : List ℤ → S → Tick

  -- The heights from the one after the stored height up to two below the head.
  unfoldable pub sync_from : SyncConfig → (ℤ → Bool) → (List ℤ → S → Run S) → ℤ → ℤ → S → Run Tick
  sync_from conf has work height head s = do
    let first = add64 height (pos 1)
    l ←
        sync_rounds (pos_part (head -ℤ height)) has conf.max_once head first
          (record { last = height; todo = 0; started = []; store = s })
    after ← work l.started l.store
    stored ← set_sync_height l.last after
    done (synced l.started stored)

  -- One tick of `DoSync`. `head` is the height that the node answers, `has` what the database
  -- answers during the round, and `work` what the started jobs do to it. Where the node does not
  -- answer, this is the tick in which `getNode` connects to it again.
  unfoldable pub sync_tick :
      SyncConfig → Result ℤ → (ℤ → Bool) → (List ℤ → S → Run S) → S → Run Tick
  sync_tick conf head has work s = elim (get_sync_height s) [
    | err _ ↦ done no_height
    | ok height ↦ elim head [
      | err _ ↦ do s' ← set_sync_height (sub64 height (pos 10)) s; done (reconnected s')
      | ok h ↦
          if is_past conf height
          then done stopped
          else sync_from conf has work height (sub64 h (pos 2)) s
    ]
  ]

  -- The start of `main`: the blocks around the configured height are deleted, and the stored height
  -- is set twenty below it.
  unfoldable pub start : SyncConfig → S → Run S
  start conf s =
      set_sync_height (sub64 conf.height (pos 20))
        (db.delete_blocks (sub64 conf.height (pos 20)) (add64 conf.height (pos 20)) s)
