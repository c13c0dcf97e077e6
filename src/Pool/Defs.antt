-- ===== src/Pool/Defs.antt =====
-- The state of `MpoolQueue`, its construction, and the calls of the node that both of its loops
-- make: `getCode` and `getTickerEpoch`.
use lotus_tools.Prelude.{
  ℕ, ◌*◌, ℤ, pos, String, Bool, ◌||◌, Option, none, some, List, [], ◌∷◌, Result, ok, err, Run, done,
  panic, ◌==◌, if◌then◌else◌, lookup, insert, string_eq, add64, wrap64, big_from_string,
}
use lotus_tools.Config.{Config}
use lotus_tools.Node.{
  Address, Cid, ChainTipSet, Node, pre_commit_sector, prove_commit_sector, epochs_in_day,
  max_pre_commit_randomness_lookback,
}
use lotus_tools.Convert.{Message}
use lotus_tools.FeeController.{FeeState, set_gauge}

-- A time is its Unix seconds; the zero time is `none`.
abbrev pub Time : Type 0
Time = Option ℤ

-- `MessageLabels`. Nothing in the program sets `catch_time`.
pub record MessageLabels : Type 0 where
  pub message : Message
  pub seal_rand_epoch : ℤ
  pub seed_epoch : ℤ
  pub expire_epoch : ℤ
  pub remain_epoch : ℤ
  pub expire_time_stamp : Time
  pub catch_time : Time

-- The labels of one row of the gauge `mpool_local`; its value is the nonce.
pub record Row : Type 0 where
  pub labels : MessageLabels
  pub gas_fee_cap : ℤ
  pub gas_premium : ℤ
  pub gas_limit : ℤ

-- `has_storage` says whether `storageApi` is not nil; `rows` are the rows set since the gauge was
-- last emptied.
pub record MpoolQueue : Type 0 where
  pub conf : Config
  pub has_storage : Bool
  pub filter : List Address
  pub fees : FeeState
  pub code_cache : List (Address × Cid)
  pub localpools : List (ℕ × MessageLabels)
  pub rows : List Row

-- The addresses of the configuration, parsed one after the other up to the first error.
unfoldable pub parse_filter : (String → Result Address) → List String → Result (List Address)
parse_filter parse [] = ok []
parse_filter parse (a ∷ rest) = elim (parse a) [
  | err e ↦ err e
  | ok addr ↦ elim (parse_filter parse rest) [ err e ↦ err e | ok addrs ↦ ok (addr ∷ addrs) ]
]

abbrev pub to_result : Option ℤ → Result ℤ
to_result none = err "failed to parse string as a big int"
to_result (some z) = ok z

-- `NewLocalPool`. The package variable `mpoolQueue` is nil at every call, since nothing assigns it.
-- `gauge` is what the gauge `baseFeeCap` shows before.
unfoldable pub new_local_pool : (String → Result Address) → Config → Bool → ℤ → Result MpoolQueue
new_local_pool parse conf has_storage gauge = elim (parse_filter parse conf.setting.addresses) [
  | err e ↦ err e
  | ok filter ↦ elim (to_result (big_from_string conf.setting.base_fee)) [
    | err e ↦ err e
    | ok feecap ↦ elim (to_result (big_from_string conf.setting.base_fee_max)) [
      | err e ↦ err e
      | ok max_feecap ↦ ok (record {
        conf = conf;
        has_storage = has_storage;
        filter = filter;
        fees = record {
          feecap = feecap;
          max_feecap = max_feecap;
          fee_queue = [];
          gauge = set_gauge feecap gauge;
        };
        code_cache = [];
        localpools = [];
        rows = [];
      })
    ]
  ]
]

-- `getCode`: the code of an actor and the cache after the call. Errors are not cached, and leave
-- the empty identifier.
unfoldable pub get_code : Node → Address → List (Address × Cid) → Cid × List (Address × Cid)
get_code node addr cache = elim (lookup addr cache) [
  | some c ↦ (c, cache)
  | none ↦ elim (node.get_actor addr) [ err _ ↦ ("", cache) | ok c ↦ (c, insert addr c cache) ]
]

-- The results of `getTickerEpoch`.
pub record TickerEpoch : Type 0 where
  pub seal_epoch : ℤ
  pub seed_epoch : ℤ
  pub expire_epoch : ℤ
  pub expire_time_stamp : Time
  pub error : Option String

abbrev pub no_epochs : Option String → TickerEpoch
no_epochs e = record {
  seal_epoch = pos 0;
  seed_epoch = pos 0;
  expire_epoch = pos 0;
  expire_time_stamp = none;
  error = e;
}

-- time.Unix(int64(ts.MinTimestamp()) + int64(epochs*30), 0), where the tip set is found.
unfoldable pub stamp : ℕ → Result ChainTipSet → Time
stamp epochs (err _) = none
stamp epochs (ok ts) = some (add64 (wrap64 (pos ts.min_timestamp)) (pos (epochs * 30)))

abbrev pub is_sector_method : ℕ → Bool
is_sector_method method = method == pre_commit_sector || method == prove_commit_sector

-- The epochs of a sector message, from the status of its sector.
unfoldable pub sector_epochs : Node → ℕ → ℕ → TickerEpoch
sector_epochs node method sector = elim (node.sectors_status sector) [
  | err e ↦ no_epochs (some e)
  | ok info ↦
      if method == pre_commit_sector
      then record {
        seal_epoch = info.ticket_epoch;
        seed_epoch = info.seed_epoch;
        expire_epoch = add64 info.ticket_epoch (pos max_pre_commit_randomness_lookback);
        expire_time_stamp =
            stamp max_pre_commit_randomness_lookback (node.tip_set_by_height info.ticket_epoch);
        error = none;
      }
      else record {
        seal_epoch = info.ticket_epoch;
        seed_epoch = info.seed_epoch;
        expire_epoch = add64 info.seed_epoch (pos epochs_in_day);
        expire_time_stamp = stamp epochs_in_day (node.tip_set_by_height info.seed_epoch);
        error = none;
      }
]

-- `getTickerEpoch`: a call of a nil `storageApi` panics.
unfoldable pub get_ticker_epoch : Node → Bool → ℕ → ℕ → Run TickerEpoch
get_ticker_epoch node has_storage method sector =
    if is_sector_method method
    then (if has_storage then done (sector_epochs node method sector) else panic)
    else done (no_epochs none)
