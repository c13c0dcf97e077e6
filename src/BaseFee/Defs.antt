-- ===== src/BaseFee/Defs.antt =====
-- api/baseFee.go, the watcher of baseFee/baseFee.go with the setter of baseFee/prometheus.go, and
-- cli/baseFee/main.go. What the watcher waits for arrives as a list of events.
use Prim.Native.String.{◌++◌}
use lotus_tools.Prelude.{
  ℤ, pos, String, Option, none, some, List, [], ◌∷◌, Result, ok, err, Run, done, panic, ◌>>=◌,
  big_string, parse_int64,
}
use lotus_tools.Prelude.Lists.{snoc}
use lotus_tools.Node.{ChainTipSet, Node}

-- `GetBase`: 0 where the node gives no head. A tip set without blocks panics.
abbrev pub base_of : Result ChainTipSet → Run ℤ
base_of (err _) = done (pos 0)
base_of (ok ts) = elim ts.blocks [ [] ↦ panic | b ∷ _ ↦ done b.parent_base_fee ]

unfoldable pub get_base : Node → Run ℤ
get_base node = base_of node.chain_head

-- The gauge and what the histogram has observed, as the int64 numbers that become floats.
pub record Metrics : Type 0 where
  pub gauge : Option ℤ
  pub histogram : List ℤ

abbrev pub no_metrics : Metrics
no_metrics = record { gauge = none; histogram = [] }

-- The setter that `Monitor` passes: a fee that is no int64 is logged only.
abbrev pub observe : Option ℤ → Metrics → Metrics
observe none m = m
observe (some z) m = record { gauge = some z; histogram = snoc m.histogram z }

unfoldable pub setter : ℤ → Metrics → Metrics
setter base m = observe (parse_int64 (big_string base)) m

-- What the loop of the watcher receives: a value of the timer, with the answer of the node to
-- ChainHead, or the end of the context.
pub data Event : Type 0 where
  timer : Result ChainTipSet → Event
  ctx_done : Event

-- `watchBaseFee` while it loops.
unfoldable pub watch_rounds : List Event → Metrics → Run Metrics
watch_rounds [] m = done m
watch_rounds (ctx_done ∷ events) m = done m
watch_rounds (timer head ∷ events) m = do base ← base_of head; watch_rounds events (setter base m)

-- It sets the fee once before the first value of the timer.
unfoldable pub watch_base_fee : Result ChainTipSet → List Event → Metrics → Run Metrics
watch_base_fee head events m = do base ← base_of head; watch_rounds events (setter base m)

-- The flags of cli/baseFee/main.go.
pub record Flags : Type 0 where
  pub api : String
  pub port : ℤ

abbrev pub default_flags : Flags
default_flags = record { api = "172.18.5.202:1234"; port = pos 80 }

-- How `run` goes on: logrus.Fatalf ends the process, or the monitor listens.
pub data Started : Type 0 where
  fatal : Started
  listens : String → Started

-- `run`; `open_rpc` is what the client answers for an address.
unfoldable pub run : (String → Result (Unit {0})) → Flags → Started
run open_rpc flags = elim (open_rpc ("ws://" ++ (flags.api ++ "/rpc/v0"))) [
  | err _ ↦ fatal
  | ok _ ↦ listens (":" ++ big_string flags.port)
]
