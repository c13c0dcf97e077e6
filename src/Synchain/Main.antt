-- ===== src/Synchain/Main.antt =====
-- `main` of synchain/parseMessage.go: the configuration, the connection to MongoDB, the start, the
-- loop of `DoSync` until the context is done, and the end of the connection.
use lotus_tools.Prelude.{
  ℕ, suc, ◌+◌, ◌-◌, ◌*◌, ◌≤◌, ◌<◌, pos, String, true, ◌≡◌, refl, ◌∙◌, Option, none, some, List, [],
  ◌∷◌, length, Result, ok, err, Run, done, ◌>>=◌, arith, ◌≤ℤ◌, bound64, ltb,
}
use lotus_tools.Loading.{Files, init_config}
use lotus_tools.Clients.{Connection, get_node}
use lotus_tools.Clients.Mongo.{
  Driver, MongoDatabase, client_options, connect, disconnect, connect-answers,
}
use lotus_tools.Synchain.Settings.{Settings, default_settings}
use lotus_tools.Synchain.Database.{Database, Documented}
use lotus_tools.Synchain.Defs.{start}
use lotus_tools.Synchain.Heights.{IsSingle, positives}
use lotus_tools.Synchain.Restart.{start-set}
use lotus_tools.Synchain.Rounds.{Event, Loops, do_sync}
use lotus_tools.Synchain.Reaches.{Round, events, AllReach, do_sync_reaches_target}

-- How the program comes to wait for its context: logrus.Fatalf ends it without a connection, or
-- the loop has run, and Disconnect gives an error or none.
pub data Served (S : Type 0) : Type 0 where
  fatal : Served S
  served : Loops S → Option String → Served S

module _ {S B M C N : Type 0} (db : Database S B M) (driver : Driver C)
    (open_rpc : Connection → Result N) (files : Files Settings) where
  -- `getNode` at the start of `DoSync`, and the loop.
  abbrev pub with_node : Settings → List (Event S) → S → Option C → Result N → Run (Served S)
  with_node conf arriving s client (err e) = done fatal
  with_node conf arriving s client (ok node) = do
    l ← do_sync db conf.sync_config arriving s
    done (served l (disconnect driver client))

  abbrev pub serve : Settings → List (Event S) → S → Option C → Run (Served S)
  serve conf arriving s client = do
    s' ← start db conf.sync_config s
    with_node conf arriving s' client (open_rpc (get_node conf.lotus))

  abbrev pub with_database :
      Settings → List (Event S) → S → Option C × Result (MongoDatabase C) → Run (Served S)
  with_database conf arriving s (client, err e) = done fatal
  with_database conf arriving s (client, ok database) = serve conf arriving s client

  unfoldable pub main : List (Event S) → S → Run (Served S)
  main arriving s = do
    conf ← init_config files default_settings
    with_database conf arriving s (connect driver conf none)

  module _ (d : Documented db) where
    -- The program runs, and the only positive height of the database is at least `target`.
    abbrev pub HasReached : ℕ → Run (Served S) → Type 0
    HasReached target r =
        (b : ℕ) × (s' : S) × (closing : Option String) × (r
          ≡ done (served (record { running = true; store = s' }) closing))
        × (positives (d.configs s') ≡ pos b ∷ [])
        × (target ≤ b)

    main_step :
        (conf : Settings) (arriving : List (Event S)) (s s' : S) (l : Loops S) (client : C)
        (node : N)
        → init_config files default_settings ≡ done conf
        → driver.connect (client_options conf) ≡ ok client
        → driver.ping client ≡ none
        → open_rpc (get_node conf.lotus) ≡ ok node
        → start db conf.sync_config s ≡ done s'
        → do_sync db conf.sync_config arriving s' ≡ done l
        → main arriving s ≡ done (served l (disconnect driver (some client)))
    unfolding main
    main_step conf arriving s s' l client node loaded opened answers connects started run =
        rw (loaded, main)
          (rw (connect-answers driver conf none client opened answers)
            (rw (started, connects, run) refl))

    -- The synchroniser comes from its start to the head of the chain. It starts twenty below the
    -- configured height h, and after enough timer values, where none of the chain heads that it is
    -- answered lies below `target` + 2, the height that the database holds is at least `target`. It is
    -- enough that the number of values, times one more than MaxOnce, covers the distance from
    -- h - 20. The conditions: conf.yaml is read, MongoDB answers, the node is connected to and answers
    -- every time; a database as documented with at most one positive height; an h above 20, no height
    -- to stop at and a MaxOnce that is not negative; jobs that return and leave the config collection
    -- alone; heights that fit an int64.
    pub main-HasReached :
        (conf : Settings) (client : C) (node : N) (h once target : ℕ) (rs : List (Round S)) (s : S)
        → init_config files default_settings ≡ done conf
        → driver.connect (client_options conf) ≡ ok client
        → driver.ping client ≡ none
        → open_rpc (get_node conf.lotus) ≡ ok node
        → conf.sync_config.height ≡ pos h
        → 20 < h
        → h < bound64
        → conf.sync_config.max_once ≡ pos once
        → conf.sync_config.stop_height ≤ℤ pos 0
        → AllReach db d conf.sync_config target rs
        → IsSingle (d.configs s)
        → target ≤ h - 20 + length rs * suc once
        → HasReached target (main (events rs) s)
    main-HasReached conf client node h once target rs s loaded opened answers connects height above
          fits k never all single enough =
        let (s1, started, after) = start-set db d conf.sync_config s height fits single in
        let high : ltb 20 h ≡ true = ground arith in
        let (b, s2, run, stored, reached) =
          do_sync_reaches_target db d conf.sync_config once target (h - 20) rs s1 k never all
            (omega arith) (omega arith) (after ∙ rw high refl) enough in
        (
          b,
          s2,
          disconnect driver (some client),
          main_step conf (events rs) s s1 (record { running = true; store = s2 }) client node loaded
              opened answers connects started run,
          stored,
          reached,
        )
