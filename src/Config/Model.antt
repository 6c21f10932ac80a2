-- ===== src/Config/Model.antt =====
-- The validated records of src/pricewatch/config.py, and the members of `Config` that read them.
use pricewatch.Base.{
  Bool, Option, none, some, List, [], ◌∷◌, ◌++◌, Text, codes, text_eq, filter, if◌then◌else◌,
}
use pricewatch.Base.Int.{ℤ}
use pricewatch.Errors.{Result, ok, err, no_such_account}
use pricewatch.Config.Secret.{SecretValue}

-- `SiteId`
pub data SiteId : Type 0 where
  asos freepeople : SiteId

unfoldable pub site_text : SiteId → Text
site_text asos = codes "asos"
site_text freepeople = codes "freepeople"

-- `LogLevel`
pub data LogLevel : Type 0 where
  debug info warning error : LogLevel

pub record GeneralConfig : Type 0 where
  pub poll_interval_minutes : ℤ
  pub jitter_minutes : ℤ
  pub state_dir : Text
  pub db_path : Option Text
  pub log_level : LogLevel
  pub max_consecutive_failures : ℤ
  pub raw_response_retention : ℤ

pub record AccountConfig : Type 0 where
  pub name : Text
  pub site : SiteId
  pub enabled : Bool
  pub home_url : Option Text

pub record TriggersConfig : Type 0 where
  pub any_drop : Bool
  pub percent_off : Option ℤ
  pub target_price : Bool
  pub lowest_ever : Bool
  pub back_in_stock : Bool
  pub back_in_stock_max_lookups : ℤ

pub data Priority : Type 0 where
  min low default high urgent : Priority

-- What the four kinds of notifier add to the base.
pub data NotifierKind : Type 0 where
  ntfy : (server topic : Text) → Option SecretValue → Priority → NotifierKind
  telegram : SecretValue → (chat_id : Text) → NotifierKind
  discord : SecretValue → NotifierKind
  smtp :
      (host : Text)
      → ℤ
      → (username : Option Text) → Option SecretValue
      → (from_address : Text) → (to_addresses : List Text) → (starttls : Bool) → NotifierKind

pub record Notifier : Type 0 where
  pub name : Text
  pub enabled : Bool
  pub kind : NotifierKind

pub record Config : Type 0 where
  pub general : GeneralConfig
  pub accounts : List AccountConfig
  pub triggers : TriggersConfig
  pub notifiers : List Notifier

-- `Config.db_path`; a path is its text, and `/` joins with a slash.
unfoldable pub db_path : Config → Text
db_path c = elim c.general.db_path [
  | some path ↦ path
  | none ↦ c.general.state_dir ++ codes "/pricewatch.db"
]

-- `Config.enabled_accounts`
unfoldable pub enabled_accounts : Config → List AccountConfig
enabled_accounts c = filter (λ a. a.enabled) c.accounts

-- The loop of `Config.account`.
unfoldable pub find_account : Text → List AccountConfig → Option AccountConfig
find_account name [] = none
find_account name (a ∷ rest) = if text_eq a.name name then some a else find_account name rest

-- `Config.account`
unfoldable pub account : Config → Text → Result AccountConfig
account c name = elim (find_account name c.accounts) [
  | some a ↦ ok a
  | none ↦ err (no_such_account name)
]
