-- ===== src/Config/Raw.antt =====
-- The raw tables of src/pricewatch/config.py and the problems that each model finds in its own. A
-- raw table holds what TOML gives for each field, or nothing.
use pricewatch.Base.{
  String, ℕ, Bool, true, false, Option, none, some, List, [], ◌∷◌, ◌++◌, Text, codes, length, leb,
}
use pricewatch.Base.Int.{ℤ, pos}
use pricewatch.Errors.{key}
use pricewatch.Config.Fields.{
  Problems, check, is_name, at_least, within, https_only, forbid, under, each,
}
use pricewatch.Config.Secret.{RawSecret, secret_problems}
use pricewatch.Config.Model.{SiteId, LogLevel, Priority}

pub record RawGeneral : Type 0 where
  pub poll_interval_minutes : Option ℤ
  pub jitter_minutes : Option ℤ
  pub state_dir : Option Text
  pub db_path : Option Text
  pub log_level : Option LogLevel
  pub max_consecutive_failures : Option ℤ
  pub raw_response_retention : Option ℤ
  pub extra : List Text

pub record RawAccount : Type 0 where
  pub name : Option Text
  pub site : Option SiteId
  pub enabled : Option Bool
  pub home_url : Option Text
  pub extra : List Text

pub record RawTriggers : Type 0 where
  pub any_drop : Option Bool
  pub percent_off : Option ℤ
  pub target_price : Option Bool
  pub lowest_ever : Option Bool
  pub back_in_stock : Option Bool
  pub back_in_stock_max_lookups : Option ℤ
  pub extra : List Text

pub data RawKind : Type 0 where
  raw_ntfy : (server topic : Option Text) → Option RawSecret → Option Priority → RawKind
  raw_telegram : Option RawSecret → (chat_id : Option Text) → RawKind
  raw_discord : Option RawSecret → RawKind
  raw_smtp :
      (host : Option Text)
      → Option ℤ
      → (username : Option Text) → Option RawSecret
      → (from_address : Option Text) → Option (List Text)
      → Option Bool
      → RawKind

pub record RawNotifier : Type 0 where
  pub name : Option Text
  pub enabled : Option Bool
  pub kind : RawKind
  pub extra : List Text

pub record RawConfig : Type 0 where
  pub general : RawGeneral
  pub accounts : List RawAccount
  pub triggers : RawTriggers
  pub notifiers : List RawNotifier
  pub extra : List Text

-- A required field: it is there and passes its test.
abbrev pub required {ℓ} : {A : Type ℓ} → (A → Bool) → Option A → Bool
required p none = false
required p (some x) = p x

-- A field with a default: the default is not validated.
abbrev pub optional {ℓ} : {A : Type ℓ} → (A → Bool) → Option A → Bool
optional p none = true
optional p (some x) = p x

abbrev pub field : String → Bool → Problems
field name good = check good (key (codes name) ∷ [])

-- `MIN_POLL_INTERVAL_MINUTES`
abbrev pub min_poll_interval_minutes : ℤ
min_poll_interval_minutes = pos 30

unfoldable pub general_problems : RawGeneral → Problems
unfolding at_least within forbid
general_problems g =
    field "poll_interval_minutes"
      (optional (at_least min_poll_interval_minutes) g.poll_interval_minutes)
    ++ field "jitter_minutes" (optional (within (pos 0) (pos 120)) g.jitter_minutes)
    ++ field "max_consecutive_failures" (optional (at_least (pos 1)) g.max_consecutive_failures)
    ++ field "raw_response_retention" (optional (at_least (pos 0)) g.raw_response_retention)
    ++ forbid g.extra

unfoldable pub account_problems : RawAccount → Problems
unfolding is_name https_only forbid
account_problems a =
    field "name" (required is_name a.name)
    ++ field "site" (required (λ _. true) a.site)
    ++ field "home_url" (https_only a.home_url)
    ++ forbid a.extra

unfoldable pub triggers_problems : RawTriggers → Problems
unfolding at_least within forbid
triggers_problems t =
    field "percent_off" (optional (within (pos 1) (pos 99)) t.percent_off)
    ++ field "back_in_stock_max_lookups" (optional (at_least (pos 0)) t.back_in_stock_max_lookups)
    ++ forbid t.extra

-- `Field(min_length=n)`
abbrev min_length {ℓ} : {A : Type ℓ} → ℕ → List A → Bool
min_length n xs = leb n (length xs)

abbrev pub secret_field : String → Option RawSecret → Problems
secret_field name none = []
secret_field name (some raw) = under (key (codes name)) (secret_problems raw)

abbrev pub required_secret : String → Option RawSecret → Problems
required_secret name none = (key (codes name) ∷ []) ∷ []
required_secret name (some raw) = under (key (codes name)) (secret_problems raw)

unfoldable pub kind_problems : RawKind → Problems
unfolding within secret_problems
kind_problems (raw_ntfy server topic token priority) =
    field "topic" (required (min_length 1) topic) ++ secret_field "token" token
kind_problems (raw_telegram bot_token chat_id) =
    required_secret "bot_token" bot_token ++ field "chat_id" (required (min_length 1) chat_id)
kind_problems (raw_discord webhook_url) = required_secret "webhook_url" webhook_url
kind_problems (raw_smtp host port username password from to starttls) =
    field "host" (required (min_length 1) host)
    ++ field "port" (optional (within (pos 1) (pos 65535)) port)
    ++ secret_field "password" password
    ++ field "from_address" (required (min_length 3) from)
    ++ field "to_addresses" (required (min_length 1) to)

-- `type`, which pydantic puts into the place of a problem, as the one that chooses the model.
unfoldable pub kind_tag : RawKind → Text
kind_tag (raw_ntfy server topic token priority) = codes "ntfy"
kind_tag (raw_telegram bot_token chat_id) = codes "telegram"
kind_tag (raw_discord webhook_url) = codes "discord"
kind_tag (raw_smtp host port username password from to starttls) = codes "smtp"

unfoldable pub notifier_problems : RawNotifier → Problems
unfolding is_name kind_problems kind_tag forbid
notifier_problems n =
    under (key (kind_tag n.kind))
      (field "name" (required is_name n.name) ++ kind_problems n.kind ++ forbid n.extra)

-- All problems of the fields, each under its place.
unfoldable pub field_problems : RawConfig → Problems
field_problems raw =
    under (key (codes "general")) (general_problems raw.general)
    ++ under (key (codes "accounts")) (each account_problems 0 raw.accounts)
    ++ under (key (codes "triggers")) (triggers_problems raw.triggers)
    ++ under (key (codes "notifiers")) (each notifier_problems 0 raw.notifiers)
    ++ forbid raw.extra
