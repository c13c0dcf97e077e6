-- ===== src/Synchain/Rounds.antt =====
-- The loop of `DoSync` in parseMessage.go: a tick for each value of the timer, until the context is
-- done or the height to stop at is passed. What arrives is an argument.
use lotus_tools.Prelude.{
  ℤ, Bool, true, false, List, [], ◌∷◌, Result, ok, err, Run, done, panic, ◌>>=◌,
}
use lotus_tools.Synchain.Database.{SyncConfig, Database}
use lotus_tools.Synchain.Defs.{
  Tick, no_height, reconnected, stopped, synced, get_sync_height, sync_tick,
}

-- What the loop receives, with what the node and the database answer to a tick and what the jobs of
-- the tick do. `node_lost` is a value of the timer for which the node neither answers nor can be
-- connected to again.
pub data Event (S : Type 0) : Type 0 where
  timer : Result ℤ → (ℤ → Bool) → (List ℤ → S → Run S) → Event S
  node_lost : Event S
  ctx_done : Event S

-- Whether the loop still runs, and the database.
pub record Loops (S : Type 0) : Type 0 where
  pub running : Bool
  pub store : S

module _ {S B M : Type 0} (db : Database S B M) where
  -- What a tick leaves.
  unfoldable pub after_tick : S → Tick db → Loops S
  after_tick s no_height = record { running = true; store = s }
  after_tick s (reconnected s') = record { running = true; store = s' }
  after_tick s stopped = record { running = false; store = s }
  after_tick s (synced heights s') = record { running = true; store = s' }

  -- `do_sync` while it runs: `rest` is the loop on the events that are left.
  abbrev pub continue_with : (S → Run (Loops S)) → Bool → S → Run (Loops S)
  continue_with rest true s = rest s
  continue_with rest false s = done (record { running = false; store = s })

  -- Once a height is found, the failure of `getNode` ends the process by logrus.Fatalf, which is a
  -- `panic` here.
  unfoldable pub do_sync : SyncConfig → List (Event S) → S → Run (Loops S)
  do_sync conf [] s = done (record { running = true; store = s })
  do_sync conf (ctx_done ∷ events) s = done (record { running = false; store = s })
  do_sync conf (node_lost ∷ events) s = elim (get_sync_height db s) [
    | err _ ↦ do_sync conf events s
    | ok _ ↦ panic
  ]
  do_sync conf (timer head has work ∷ events) s = do
    t ← sync_tick db conf head has work s
    let l = after_tick s t
    continue_with (do_sync conf events) l.running l.store
