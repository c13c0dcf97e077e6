-- ===== src/Synchain/Settings.antt =====
-- The settings of the synchroniser: types/conf.go, and the defaults that synchain/config.go sets
-- before it reads conf.yaml.
use lotus_tools.Prelude.{pos, String, Bool, false}
use lotus_tools.Config.{Lotus}
use lotus_tools.Synchain.Database.{SyncConfig}

pub record Mongodb : Type 0 where
  pub server : String
  pub no_auth : Bool
  pub username : String
  pub password : String
  pub database : String

-- `Lotus` of types/conf.go has the fields of that of the fee service.
pub record Settings : Type 0 where
  pub mongodb : Mongodb
  pub lotus : Lotus
  pub sync_config : SyncConfig

abbrev pub default_settings : Settings
default_settings = record {
  mongodb = record {
    server = "192.168.1.157:27037";
    no_auth = false;
    username = "admin";
    password = "admin";
    database = "filecoin";
  };
  lotus = record { token = ""; address = "" };
  sync_config = record {
    height = pos 281520;
    stop_height = pos 0;
    max_once = pos 10;
    time_wait = pos 10;
  };
}
