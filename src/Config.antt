-- ===== src/Config.antt =====
-- The configuration of the fee service: types/baseFeeAuto/types.go, and the defaults that
-- cli/baseFeeAuto/main.go sets before it reads conf.yaml.
use lotus_tools.Prelude.{ℕ, ℤ, pos, String, List, [], Option, none}

-- A float64, by its 64 bits.
abbrev pub Float64 : Type 0
Float64 = ℕ

pub record StepFee : Type 0 where
  pub hour : Float64
  pub fee : String

-- Go's `int` and `int64` fields are integers in the range of 64 bits.
pub record Setting : Type 0 where
  pub refresh_time : ℤ
  pub refresh_base_fee : ℤ
  pub base_fee : String
  pub base_fee_max : String
  pub base_fee_percent : ℤ
  pub time_keep : ℤ
  pub mpool_threshold_high : ℤ
  pub mpool_threshold_low : ℤ
  pub step_fee : List StepFee
  pub pro_limit : ℤ
  pub pre_limit : ℤ
  pub pre_break_limit : ℤ
  pub limit_adjust_seed : ℤ
  pub limit_estimate_seed : ℤ
  pub limit_max_premium : ℤ
  pub premium_seed : ℤ
  pub once_max : ℤ
  pub addresses : List String

pub record Prometheus : Type 0 where
  pub port : String

pub record Ding : Type 0 where
  pub url : String

-- A pointer field is an `Option` where the defaults leave it nil.
pub record Alert : Type 0 where
  pub ding_ding : Option Ding

pub record Lotus : Type 0 where
  pub token : String
  pub address : String

pub record Miner : Type 0 where
  pub miner : String
  pub wallet : String
  pub storage : Option Lotus
  pub pro_limit : ℤ
  pub pre_limit : ℤ
  pub pre_break_limit : ℤ
  pub once_max : ℤ

pub record Config : Type 0 where
  pub demo : Lotus
  pub storage : Lotus
  pub setting : Setting
  pub prometheus : Prometheus
  pub alert : Option Alert
  pub redis_address : String
  pub redis_password : String
  pub redis_db_number : ℤ
  pub miners : List Miner

-- `config` as `init` builds it. A field that the literal leaves out is Go's zero value.
abbrev pub default_config : Config
default_config = record {
  demo = record { token = ""; address = "" };
  storage = record { token = ""; address = "" };
  setting = record {
    refresh_time = pos 30;
    refresh_base_fee = pos 20;
    base_fee = "2000000000";
    base_fee_max = "9000000000";
    base_fee_percent = pos 80;
    time_keep = pos 1;
    mpool_threshold_high = pos 0;
    mpool_threshold_low = pos 20;
    step_fee = [];
    pro_limit = pos 68978435;
    pre_limit = pos 41078435;
    pre_break_limit = pos 700000;
    limit_adjust_seed = pos 30;
    limit_estimate_seed = pos 130;
    limit_max_premium = pos 1900000;
    premium_seed = pos 126;
    once_max = pos 2;
    addresses = [];
  };
  prometheus = record { port = "8881" };
  alert = none;
  redis_address = "localhost:6379";
  redis_password = "password";
  redis_db_number = pos 0;
  miners = [];
}
