-- ===== src/Cli/Context.antt =====
-- The context of the commands of src/pricewatch/cli.py, and the commands that need no more than it.
use pricewatch.Base.{Bool, Option, none, some, [], ◌∷◌, ◌++◌, Text, codes, if◌then◌else◌}
use pricewatch.Base.Int.{ℤ}
use pricewatch.Errors.{Result, ok, err}
use pricewatch.Config.Model.{LogLevel, Config}
use pricewatch.Config.Raw.{RawConfig}
use pricewatch.Config.Load.{Host, ReadResult, load}
use pricewatch.Cli.Output.{out, Printed, finished, raises, not_implemented, int_text}

-- The file system and the TOML reader, as `Config.load` sees them.
pub record Loader : Type 0 where
  pub host : Host
  pub parse : Text → Option RawConfig
  pub read : Text → ReadResult

-- `AppContext`, with the level that logging is configured with, if it is.
pub record AppContext : Type 0 where
  pub config_path : Text
  pub cached : Option Config
  pub log_level : Option LogLevel

abbrev pub path_or : Option Text → Text → Text
path_or none default = default
path_or (some []) default = default
path_or (some (c ∷ t)) default = c ∷ t

-- `main_callback`
unfoldable pub main_callback :
    (expanduser : Text → Text) (default_config_path : Text) → Option Text → AppContext
main_callback expanduser default_config_path config_path = record {
  config_path = expanduser (elim config_path [ none ↦ default_config_path | some p ↦ p ]);
  cached = none;
  log_level = none;
}

-- `_xdg_dir`
unfoldable pub xdg_dir : (Text → Option Text) → (home : Text) → Text → Text → Text
xdg_dir environ home env_var fallback = path_or (environ env_var) (home ++ codes "/" ++ fallback)

unfoldable pub xdg_config_home : (Text → Option Text) → Text → Text
unfolding xdg_dir
xdg_config_home environ home = xdg_dir environ home (codes "XDG_CONFIG_HOME") (codes ".config")

unfoldable pub xdg_data_home : (Text → Option Text) → Text → Text
unfolding xdg_dir
xdg_data_home environ home = xdg_dir environ home (codes "XDG_DATA_HOME") (codes ".local/share")

-- `default_config_path`
unfoldable pub default_config_path : (Text → Option Text) → Text → Text
unfolding xdg_config_home
default_config_path environ home = xdg_config_home environ home ++ codes "/pricewatch/config.toml"

-- `default_state_dir`
unfoldable pub default_state_dir : (Text → Option Text) → Text → Text
unfolding xdg_data_home
default_state_dir environ home = xdg_data_home environ home ++ codes "/pricewatch"

-- `version`
unfoldable pub version_cmd : Text → Printed
version_cmd version = record { lines = out version ∷ []; ending = finished }

-- `config path`
unfoldable pub config_path_cmd : AppContext → Printed
config_path_cmd a = record { lines = out a.config_path ∷ []; ending = finished }

module _ (l : Loader) where
  -- `Config.load(self.config_path)`
  unfoldable pub load_at : Text → Result Config
  unfolding load
  load_at path = load l.host l.parse (l.read path)

  -- `AppContext.config`
  unfoldable pub config_of : AppContext → Result Config × AppContext
  unfolding load_at
  config_of a = elim a.cached [
    | some c ↦ (ok c, a)
    | none ↦ elim (load_at a.config_path) [
      | err e ↦ (err e, a)
      | ok c ↦ (ok c, record a { cached = some c; log_level = some c.general.log_level })
    ]
  ]

  -- `require_config`, and then the end of a command that is not built yet.
  unfoldable pub planned : AppContext → Printed → Printed
  unfolding config_of
  planned a p = elim (config_of a).0 [ err e ↦ record { lines = []; ending = raises e } | ok c ↦ p ]

  -- `run`
  unfoldable pub run_cmd : Bool → AppContext → Printed
  unfolding planned not_implemented
  run_cmd once a = planned a (
      not_implemented (codes "run" ++ (if once then codes " --once" else [])) 5
        (codes "Needs the adapters (phases 6-7) before it has anything to poll."))

  -- `target`
  unfoldable pub target_cmd : ℤ → Text → AppContext → Printed
  unfolding planned not_implemented int_text
  target_cmd item_id price a = planned a (
      not_implemented (codes "target " ++ int_text item_id ++ codes " " ++ price) 3
        (codes "Needs the item store and trigger engine."))

  -- `history`
  unfoldable pub history_cmd : ℤ → AppContext → Printed
  unfolding planned not_implemented int_text
  history_cmd item_id a = planned a (
      not_implemented (codes "history " ++ int_text item_id) 3
        (codes "Needs the observation store."))
