-- ===== src/Loading.antt =====
-- The reading of conf.yaml: LoadYaml of types/baseFeeAuto/types.go and loadYaml of
-- synchain/config.go, which do the same. The file system and the package yaml are arguments.
use lotus_tools.Prelude.{String, Option, none, some, Result, ok, err, Run, done, panic}

-- `unmarshal` fills a configuration from a text, also beside an error.
pub record Files (C : Type 0) : Type 0 where
  pub read_file : String → Result String
  pub unmarshal : String → C → C × Option String

module _ {C : Type 0} (files : Files C) where
  abbrev pub filled : C → Result String → C × Option String
  filled config (err e) = (config, some e)
  filled config (ok text) = files.unmarshal text config

  -- The configuration, and the error.
  unfoldable pub load_yaml : String → C → C × Option String
  load_yaml file config = filled config (files.read_file file)

  abbrev pub or_panic_config : C × Option String → Run C
  or_panic_config (config, none) = done config
  or_panic_config (config, some e) = panic

  -- `init` of cli/baseFeeAuto/main.go and `initConfig`, for their defaults.
  unfoldable pub init_config : C → Run C
  unfolding load_yaml
  init_config defaults = or_panic_config (load_yaml "conf.yaml" defaults)
