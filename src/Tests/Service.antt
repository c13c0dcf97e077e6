-- ===== src/Tests/Service.antt =====
-- The service from its start through one tick of each loop.
use lotus_tools.Prelude.{
  List, Bool, ltb, pos, true, false, ◌≡◌, refl, some, [], ◌∷◌, ok, err, done, arith,
  big_from_string, big_string, parse_int64, ◌<ℤ◌, mul64, ◌*ℤ◌, wrap64, quot64, quot_ℕ,
}
use lotus_tools.Node.{Node}
use lotus_tools.Config.{Float64, StepFee}
use lotus_tools.FeeController.{
  period, queue_top, trim, add_fee, set_gauge, check_msg_too_more, check_msg_too_low,
  get_next_fee_cap, reset_base_fee_cap, parsed, clamp_cap, install_cap,
}
use lotus_tools.Pool.Bounded.{HoldsFees}
use lotus_tools.Pool.Overlap.{
  away, lowering, at, counted, read_share, not_more, lower, observe, Accesses, none_left,
  then_access, Accesses-HoldsFees,
}
use lotus_tools.Pool.{MpoolQueue, parse_filter, new_local_pool}
use lotus_tools.Pool.Sync.{sync_msg}
use lotus_tools.BaseFee.{get_base}
use lotus_tools.Pool.Clean.{clean_tick}
use lotus_tools.Pool.StepFees.{handle_msg, handle_msg_last}
use lotus_tools.Pool.Service.{
  sync_tick, improve_tick, Reachable, started, ticked, Holds, Reachable-Holds,
}
use lotus_tools.Tests.Data.{message, signed, config, node, env, parse}

-- The node is down, and then its base fee is above the cap.
abbrev down : Node
down = record node { mpool_pending = err "connection refused" }

abbrev high : Node
high = record node {
  chain_head = ok (record {
    height = pos 5001;
    min_timestamp = 1600000030;
    blocks =
        record {
          cid = "b";
          miner = "f01";
          timestamp = 1600000030;
          parent_base_fee = pos 3000000000;
        }
        ∷ [];
  });
}

abbrev fresh : MpoolQueue
fresh = record {
  conf = config;
  has_storage = true;
  filter = "f3owner" ∷ [];
  fees = record {
    feecap = pos 2000000000;
    max_feecap = pos 9000000000;
    fee_queue = [];
    gauge = pos 2000000000;
  };
  code_cache = [];
  localpools = [];
  rows = [];
}

abbrev later : MpoolQueue
later = record fresh { fees = record fresh.fees { fee_queue = pos 3000000000 ∷ [] } }

fresh-new : new_local_pool parse config true (pos 0) ≡ ok fresh
unfolding new_local_pool parse_filter big_from_string set_gauge parse_int64 big_string
fresh-new = refl

fresh-sync : sync_msg env down (λ i. down) fresh ≡ done fresh
unfolding sync_msg
fresh-sync = refl

fresh-later : clean_tick env parse high (λ i. high) fresh ≡ done ([], later)
unfolding clean_tick get_base add_fee queue_top period trim mul64 ◌*ℤ◌ wrap64 quot64 quot_ℕ
fresh-later = refl

later-Reachable : Reachable env parse config true (pos 0) later
later-Reachable =
    ticked (ticked (started fresh-new) (sync_tick down (λ i. down) fresh-sync))
      (improve_tick high (λ i. high) [] fresh-later)

minimum : big_from_string config.setting.base_fee ≡ some (pos 2000000000)
unfolding big_from_string
minimum = refl

maximum : big_from_string config.setting.base_fee_max ≡ some (pos 9000000000)
unfolding big_from_string
maximum = refl

ticking : pos 0 <ℤ period config.setting
unfolding period mul64 ◌*ℤ◌ wrap64
ticking = omega arith

Reachable-Holds_example : Holds config (pos 2000000000) (pos 9000000000) later
Reachable-Holds_example =
    Reachable-Holds env parse config minimum ticking true (pos 0) later maximum (omega arith)
      later-Reachable

-- Three steps, of which a message that is 3 hours old has passed two; the float64 numbers 1, 2 and 4
-- are compared by their bits, as positive floats can be.
abbrev steps : List StepFee
steps =
    record { hour = 4607182418800017408; fee = "3000000000" }
    ∷ record { hour = 4611686018427387904; fee = "4000000000" }
    ∷ record { hour = 4616189618054758400; fee = "5000000000" }
    ∷ []

abbrev gt : Float64 → Float64 → Bool
gt a b = ltb b a

fee_of_step : big_from_string "4000000000" ≡ some (pos 4000000000)
unfolding big_from_string
fee_of_step = refl

handle_msg_last_example :
    handle_msg gt 4613937818241073152 steps (signed (message "f3owner" 1)) (pos 600000)
    ≡ some (record {
      msg = signed (message "f3owner" 1);
      limit = pos 600000;
      next_fee = pos 4000000000;
    })
handle_msg_last_example =
    handle_msg_last gt 4613937818241073152
      (record { hour = 4607182418800017408; fee = "3000000000" } ∷ [])
      (record { hour = 4616189618054758400; fee = "5000000000" } ∷ [])
      (record { hour = 4611686018427387904; fee = "4000000000" }) (signed (message "f3owner" 1))
      (pos 600000) refl (refl, tt) refl fee_of_step

-- Five messages are below the lower threshold; the cap that is then read is installed after the
-- base fee of the next tick has been recorded.
few_messages : check_msg_too_more config.setting (pos 5) ≡ false
unfolding check_msg_too_more
few_messages = refl

too_few_messages : check_msg_too_low config.setting (pos 5) ≡ true
unfolding check_msg_too_low
too_few_messages = refl

read_fresh :
    get_next_fee_cap config.setting.base_fee_percent false fresh.fees ≡ done (pos 2000000000)
unfolding get_next_fee_cap
read_fresh = refl

observed_later : add_fee config.setting (pos 3000000000) fresh.fees ≡ done later.fees
unfolding add_fee queue_top period trim mul64 ◌*ℤ◌ wrap64 quot64 quot_ℕ
observed_later = refl

lowered_later : reset_base_fee_cap config.setting (pos 2000000000) later.fees ≡ done later.fees
unfolding reset_base_fee_cap parsed clamp_cap install_cap big_from_string set_gauge parse_int64
    big_string
lowered_later = refl

overlapping : Accesses config.setting (at fresh.fees away) (at later.fees away)
overlapping =
    then_access
      (then_access
        (then_access
          (then_access (then_access (none_left (at fresh.fees away)) (counted fresh.fees (pos 5)))
            (not_more fresh.fees (pos 5) few_messages))
          (read_share fresh.fees (pos 5) (pos 2000000000) too_few_messages read_fresh))
        (observe fresh.fees later.fees (lowering (pos 2000000000)) (pos 3000000000) observed_later))
      (lower later.fees later.fees (pos 2000000000) lowered_later)

Accesses-HoldsFees_example : HoldsFees config (pos 2000000000) (pos 9000000000) later.fees
Accesses-HoldsFees_example =
    Accesses-HoldsFees config minimum ticking parse true (pos 0) fresh maximum (omega arith)
      fresh-new overlapping
