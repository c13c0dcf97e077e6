-- ===== src/Tests/Pools.antt =====
-- The message pool service on a pool of four messages, three of them from the configured address.
use mathlib.Core.List.Perm
use lotus_tools.Prelude.{
  ℤ, ◌>>=◌, pos, ◌≡◌, refl, inr, some, none, ok, List, [], ◌∷◌, take, done, arith, contains, lookup,
  insert, big_from_string, mul64, div64, wrap64, ◌*ℤ◌, quot_ℕ,
}
use lotus_tools.FeeController.{FeeState}
use lotus_tools.FeeController.Cap.{InBounds}
use lotus_tools.Stmgr.{parse_param, json_params, get_param_type, find_method}
use lotus_tools.Convert.{message_convert, param_text}
use lotus_tools.Convert.Json.{
  get_sector_number_from_param, get_seal_rand_epoch_from_param, get_sector_length,
}
use lotus_tools.Pool.{MpoolQueue, parse_filter, get_code, get_ticker_epoch}
use lotus_tools.Pool.Sync.{Round, adjust}
use lotus_tools.Pool.Clean.{Job, clean_one, clean_loop, mpool_clean, estimated_limit, expiry_limit}
use lotus_tools.FeeController.Unordered.{with_queue}
use lotus_tools.Pool.Unordered.{adjust_unordered}
use lotus_tools.Pool.Adjust.{IsUsable, adjust-InBounds}
use lotus_tools.Pool.Jobs.{selected, messages, AtFee}
use lotus_tools.Pool.Returns.{mpool_clean_returns}
use lotus_tools.Tests.Data.{
  document, env-NoPanic, parse, setting, message, signed, pending, node, env, pool,
}

-- The two jobs that a round may start.
abbrev jobs : List Job
jobs =
    record { msg = signed (message "f3owner" 1); limit = pos 630000; next_fee = pos 2000000000 }
    ∷ record { msg = signed (message "f3owner" 2); limit = pos 630000; next_fee = pos 2000000000 }
    ∷ []

abbrev cleaned : MpoolQueue
cleaned = record pool { code_cache = ("f05", "account") ∷ [] }

clean_pool : mpool_clean env parse node (λ i. node) pool ≡ done (jobs, cleaned)
unfolding mpool_clean parse_filter clean_loop clean_one contains get_code lookup insert
    message_convert param_text parse_param json_params get_param_type find_method
    get_sector_number_from_param get_seal_rand_epoch_from_param get_sector_length get_ticker_epoch
    estimated_limit expiry_limit mul64 div64 wrap64 ◌*ℤ◌ quot_ℕ
clean_pool = refl

filtered : parse_filter parse pool.conf.setting.addresses ≡ ok ("f3owner" ∷ [])
unfolding parse_filter
filtered = refl

mpool_clean_returns_example :
    (js : List Job) × ((q : MpoolQueue) × (mpool_clean env parse node (λ i. node) pool
        ≡ done (js, q))
      × (messages js ≡ take 2 (selected ("f3owner" ∷ []) pending))
      × AtFee (pos 2000000000) js
      × (q ≡ record pool { code_cache = q.code_cache }))
mpool_clean_returns_example =
    mpool_clean_returns env env-NoPanic parse node (λ i. node) pool 2 ("f3owner" ∷ []) pending refl
      filtered refl refl

base_fee : big_from_string setting.base_fee ≡ some (pos 2000000000)
unfolding big_from_string
base_fee = refl

fees-InBounds : InBounds (pos 2000000000) pool.fees
fees-InBounds = record { above_min = omega arith; below_max = omega arith }

usable : IsUsable 80 pool.fees
usable = inr ((omega arith, omega arith), omega arith)

adjust-InBounds_example :
    (q : FeeState) × (adjust setting (pos 49) pool.fees ≡ done q) × InBounds (pos 2000000000) q
adjust-InBounds_example =
    adjust-InBounds setting pool.fees 80 base_fee refl fees-InBounds usable (pos 49)

abbrev fresh_round : Round
fresh_round = record { thislocalpools = []; msgtotal = 0; code_cache = []; rows = [] }

-- The pool after a round in which a transfer, which has no sector, got its labels.
abbrev known : MpoolQueue
known = record pool {
  localpools =
      (
        0,
        record {
          message = document 1;
          seal_rand_epoch = pos 0;
          seed_epoch = pos 0;
          expire_epoch = pos 0;
          remain_epoch = pos 0;
          expire_time_stamp = none;
          catch_time = none;
        },
      )
      ∷ [];
}

-- The observed fees with the first two the other way round.
abbrev reordered : List ℤ
reordered =
    pos 40 ∷ pos 50 ∷ pos 90 ∷ pos 10 ∷ pos 70 ∷ pos 20 ∷ pos 60 ∷ pos 30 ∷ pos 100 ∷ pos 80 ∷ []

adjust_unordered_example :
    adjust setting (pos 500) (with_queue reordered pool.fees)
    ≡ (adjust setting (pos 500) pool.fees >>= λ g. done (with_queue reordered g))
adjust_unordered_example =
    adjust_unordered setting (pos 500) pool.fees (Perm.swap (pos 40) (pos 50) _)
