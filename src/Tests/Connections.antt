-- ===== src/Tests/Connections.antt =====
-- The clients and the base-fee monitor on concrete answers.
use lotus_tools.Prelude.{
  ℕ, ◌≡◌, refl, ℤ, pos, some, none, List, [], ◌∷◌, Result, ok, err, done, ltb, if◌then◌else◌,
  parse_int64, big_from_string, big_string,
}
use lotus_tools.Node.{ChainTipSet}
use lotus_tools.BaseFee.{Event, timer, ctx_done, no_metrics, watch_base_fee, watch_rounds, setter}
use lotus_tools.BaseFee.Observed.{Watches, asked, watch_base_fee-Watches}
use lotus_tools.Clients.Redis.{Connects, redis_connect, connect_db, redis_connect-Connects}
use lotus_tools.Clients.Mongo.{Driver, Opens, connect, connect-Opens}
use lotus_tools.Synchain.Settings.{default_settings}

-- A server that answers the fourth attempt.
abbrev attempt : ℕ → Result ℕ
attempt n = if ltb n 3 then err "connection refused" else ok n

redis_connect-Connects_example : Connects attempt (redis_connect attempt)
redis_connect-Connects_example = redis_connect-Connects attempt

fourth : redis_connect attempt ≡ done (some 3)
unfolding redis_connect connect_db
fourth = refl

-- A driver that connects to a server that does not answer.
abbrev driver : Driver ℕ
driver = record {
  connect = λ o. ok 1;
  ping = λ c. some "server selection timeout";
  disconnect = λ c. none;
}

connect-Opens_example : Opens driver default_settings none (connect driver default_settings none)
connect-Opens_example = connect-Opens driver default_settings none

abbrev tip_set : ℤ → ChainTipSet
tip_set fee = record {
  height = pos 100;
  min_timestamp = 1600000000;
  blocks = record { cid = "b"; miner = "f01"; timestamp = 1600000000; parent_base_fee = fee } ∷ [];
}

abbrev events : List Event
events = timer (ok (tip_set (pos 300))) ∷ timer (err "timeout") ∷ ctx_done ∷ []

watch_base_fee-Watches_example :
    Watches
      (ok (tip_set (pos 100)) ∷ asked events)
      no_metrics
      (watch_base_fee (ok (tip_set (pos 100))) events no_metrics)
watch_base_fee-Watches_example = watch_base_fee-Watches (ok (tip_set (pos 100))) events no_metrics

watched :
    watch_base_fee (ok (tip_set (pos 100))) events no_metrics
    ≡ done (record { gauge = some (pos 0); histogram = pos 100 ∷ pos 300 ∷ pos 0 ∷ [] })
unfolding watch_base_fee watch_rounds setter parse_int64 big_from_string big_string
watched = refl
