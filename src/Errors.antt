-- ===== src/Errors.antt =====
-- src/pricewatch/errors.py, with the exceptions that session/lock.py, session/store.py,
-- session/crypto.py and browser.py derive from its base class. An exception is the place that
-- raises it, with the data of its message; `class_of` is its class.
use pricewatch.Base.{ℕ, Bool, true, false, Option, none, some, List, Text}

-- A step of the place of a problem in the configuration: a key, or an index into an array.
pub data Part : Type 0 where
  key : Text → Part
  index : ℕ → Part

pub data ErrorClass : Type 0 where
  pricewatch_error config_error migration_error session_expired_error adapter_error : ErrorClass
  session_not_found_error profile_busy_error session_crypto_error browser_launch_error : ErrorClass
  -- what the application does not raise itself: `OSError`, `sqlite3.Error`, `KeyError`, …
  foreign : ErrorClass

pub data Error : Type 0 where
  -- config.py
  no_such_account env_unset : Text → Error
  secret_without_source config_missing config_unreadable config_not_toml : Error
  -- with the places of the problems
  config_invalid : List (List Part) → Error
  -- db/__init__.py
  bad_filename : Text → Error
  duplicate_versions orphans : List ℕ → Error
  modified migration_failed : ℕ → Error
  unsafe_metadata : Text → Error
  -- adapters/base.py
  no_external_id no_identity : Error
  negative_price bad_currency already_registered no_adapter : Text → Error
  -- session
  session_not_found : Text → Error
  profile_busy : Text → Error
  invalid_key key_not_private cannot_decrypt : Error
  -- commands
  headless_needs_adapter : Text → Error
  cancelled sign_in_timeout nothing_recorded : Error
  -- browser.py
  browser_launch : Text → Error
  -- raised by an adapter
  session_expired adapter_failed : Error
  -- any other exception
  other : Error

unfoldable pub class_of : Error → ErrorClass
class_of (no_such_account t) = config_error
class_of (env_unset t) = config_error
class_of secret_without_source = config_error
class_of config_missing = config_error
class_of config_unreadable = config_error
class_of config_not_toml = config_error
class_of (config_invalid ts) = config_error
class_of (bad_filename t) = migration_error
class_of (duplicate_versions vs) = migration_error
class_of (orphans vs) = migration_error
class_of (modified v) = migration_error
class_of (migration_failed v) = migration_error
class_of (unsafe_metadata t) = migration_error
class_of no_external_id = adapter_error
class_of no_identity = adapter_error
class_of (negative_price t) = adapter_error
class_of (bad_currency t) = adapter_error
class_of (already_registered t) = adapter_error
class_of (no_adapter t) = adapter_error
class_of adapter_failed = adapter_error
class_of session_expired = session_expired_error
class_of (session_not_found t) = session_not_found_error
class_of (profile_busy t) = profile_busy_error
class_of invalid_key = session_crypto_error
class_of key_not_private = session_crypto_error
class_of cannot_decrypt = session_crypto_error
class_of (headless_needs_adapter t) = pricewatch_error
class_of cancelled = pricewatch_error
class_of sign_in_timeout = pricewatch_error
class_of nothing_recorded = pricewatch_error
class_of (browser_launch t) = browser_launch_error
class_of other = foreign

-- `isinstance(exc, PricewatchError)`
unfoldable pub is_pricewatch_error : Error → Bool
unfolding class_of
is_pricewatch_error e = elim (class_of e) [ foreign ↦ false | _ ↦ true ]

-- A call that may raise.
pub data Result {ℓ} (A : Type ℓ) : Type ℓ where
  ok : A → Result A
  err : Error → Result A

infixl 5 ◌>>=◌
abbrev pub ◌>>=◌ {ℓ κ} : {A : Type ℓ} {B : Type κ} → Result A → (A → Result B) → Result B
ok a >>= f = f a
err e >>= f = err e

abbrev pub or_raise {ℓ} : {A : Type ℓ} → Option A → Error → Result A
or_raise none e = err e
or_raise (some a) e = ok a
