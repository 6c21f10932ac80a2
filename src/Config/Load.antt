-- ===== src/Config/Load.antt =====
-- `Config.load` of src/pricewatch/config.py: the file, the TOML reader and the models.
-- The TOML reader and `Path.expanduser` are arguments.
use pricewatch.Base.{
  ℕ, Bool, true, not, ◌&&◌, Option, none, some, List, [], ◌∷◌, ◌++◌, Text, codes, text_eq, text_le,
  filter, map, is_empty, ltb, if◌then◌else◌, ◌+◌, is_some,
}
use pricewatch.Base.Int.{pos}
use pricewatch.Base.Sort.{sort}
use pricewatch.Errors.{
  Result, ok, err, config_missing, config_unreadable, config_not_toml, config_invalid, other,
}
use pricewatch.Config.Fields.{or_default}
use pricewatch.Config.Secret.{SecretValue, RawSecret, secret_of}
use pricewatch.Config.Model.{
  asos, info, default, GeneralConfig, AccountConfig, TriggersConfig, NotifierKind, ntfy, telegram,
  discord, smtp, Notifier, Config,
}
use pricewatch.Config.Raw.{
  RawGeneral, RawAccount, RawTriggers, RawKind, raw_ntfy, raw_telegram, raw_discord, raw_smtp,
  RawNotifier, RawConfig, field_problems,
}

-- `names.count(n)`
unfoldable pub count : Text → List Text → ℕ
count t [] = 0
count t (s ∷ ts) = (if text_eq s t then 1 else 0) + count t ts

-- The set of a list, as the list of its first occurrences.
unfoldable pub distinct : List Text → List Text
distinct [] = []
distinct (t ∷ ts) = t ∷ filter (λ s. not (text_eq s t)) (distinct ts)

-- `sorted({n for n in names if names.count(n) > 1})`
unfoldable pub duplicates : List Text → List Text
unfolding count distinct sort
duplicates names = sort text_le (distinct (filter (λ n. ltb 1 (count n names)) names))

-- `Config._unique_names`
unfoldable pub unique_names : Config → Bool
unique_names c =
    is_empty (duplicates (map (λ a. a.name) c.accounts))
    && is_empty (duplicates (map (λ n. n.name) c.notifiers))

-- An error of pydantic: where it is, each part as a text, and its message.
pub record ErrorDetails : Type 0 where
  pub loc : List Text
  pub msg : Text

-- `separator.join(…)`
unfoldable pub join : Text → List Text → Text
join separator [] = []
join separator (t ∷ []) = t
join separator (t ∷ s ∷ ts) = t ++ separator ++ join separator (s ∷ ts)

abbrev pub or_root : Text → Text
or_root [] = codes "<root>"
or_root (c ∷ t) = c ∷ t

-- `_format_validation_error`
unfoldable pub format_validation_error : List ErrorDetails → Text
unfolding join
format_validation_error errors = join (codes "\n") (
    map
      (λ (e : ErrorDetails). codes "  " ++ or_root (join (codes ".") e.loc) ++ codes ": " ++ e.msg)
      errors)

-- What `path.read_bytes()` gives.
pub data ReadResult : Type 0 where
  contents : Text → ReadResult
  not_found unreadable : ReadResult

-- What stands outside the module: the home directory's expansion and the default state directory.
pub record Host : Type 0 where
  -- nothing where it raises `RuntimeError`, on a `~name` of no user
  pub expand : Text → Option Text
  pub default_state_dir : Text

module _ (h : Host) where
  -- The path that `expanduser` gives; where it raises there is no configuration.
  abbrev pub expanded : Text → Text
  expanded t = elim (h.expand t) [ none ↦ t | some p ↦ p ]

  abbrev pub expands : Option Text → Bool
  expands none = true
  expands (some t) = is_some (h.expand t)

  abbrev pub build_general : RawGeneral → GeneralConfig
  build_general g = record {
    poll_interval_minutes = or_default g.poll_interval_minutes (pos 180);
    jitter_minutes = or_default g.jitter_minutes (pos 15);
    state_dir = elim g.state_dir [ none ↦ h.default_state_dir | some d ↦ expanded d ];
    db_path = elim g.db_path [ none ↦ none | some p ↦ some (expanded p) ];
    log_level = or_default g.log_level info;
    max_consecutive_failures = or_default g.max_consecutive_failures (pos 5);
    raw_response_retention = or_default g.raw_response_retention (pos 20);
  }

-- A required field is there once the table has no problem; the second case is not reached.
abbrev pub build_account : RawAccount → AccountConfig
build_account a = record {
  name = or_default a.name [];
  site = or_default a.site asos;
  enabled = or_default a.enabled true;
  home_url = a.home_url;
}

abbrev pub build_triggers : RawTriggers → TriggersConfig
build_triggers t = record {
  any_drop = or_default t.any_drop true;
  percent_off = t.percent_off;
  target_price = or_default t.target_price true;
  lowest_ever = or_default t.lowest_ever true;
  back_in_stock = or_default t.back_in_stock true;
  back_in_stock_max_lookups = or_default t.back_in_stock_max_lookups (pos 10);
}

abbrev pub build_secret : Option RawSecret → Option SecretValue
build_secret none = none
build_secret (some raw) = some (secret_of raw)

abbrev pub required_secret_of : Option RawSecret → SecretValue
required_secret_of none = record { value = none; env = none }
required_secret_of (some raw) = secret_of raw

abbrev pub build_kind : RawKind → NotifierKind
build_kind (raw_ntfy server topic token priority) =
    ntfy (or_default server (codes "https://ntfy.sh")) (or_default topic []) (build_secret token)
      (or_default priority default)
build_kind (raw_telegram bot_token chat_id) =
    telegram (required_secret_of bot_token) (or_default chat_id [])
build_kind (raw_discord webhook_url) = discord (required_secret_of webhook_url)
build_kind (raw_smtp host port username password from to starttls) =
    smtp (or_default host []) (or_default port (pos 587)) username (build_secret password)
      (or_default from []) (or_default to []) (or_default starttls true)

abbrev pub build_notifier : RawNotifier → Notifier
build_notifier n = record {
  name = or_default n.name [];
  enabled = or_default n.enabled true;
  kind = build_kind n.kind;
}

module _ (h : Host) where
  abbrev pub build : RawConfig → Config
  build raw = record {
    general = build_general h raw.general;
    accounts = map build_account raw.accounts;
    triggers = build_triggers raw.triggers;
    notifiers = map build_notifier raw.notifiers;
  }

  -- `cls.model_validate`: the validator of the whole runs once the fields are valid. pydantic does
  -- not catch a `RuntimeError` of `_expand`.
  unfoldable pub model_validate : RawConfig → Result Config
  model_validate raw =
      if not (expands h raw.general.state_dir && expands h raw.general.db_path)
      then err other
      else if not (is_empty (field_problems raw))
      then err (config_invalid (field_problems raw))
      else if unique_names (build raw)
      then ok (build raw)
      else err (config_invalid ([] ∷ []))

  -- `Config.load`
  unfoldable pub load : (Text → Option RawConfig) → ReadResult → Result Config
  load parse not_found = err config_missing
  load parse unreadable = err config_unreadable
  load parse (contents raw) = elim (parse raw) [
    | none ↦ err config_not_toml
    | some table ↦ model_validate table
  ]
