-- ===== src/Config/Tests.antt =====
-- A configuration read by the model, and the theorems at it.
use pricewatch.Base.{text_eq, ◌≡◌, refl, true, false, Option, none, some, [], ◌∷◌, Text, codes}
use pricewatch.Base.Int.{pos}
use pricewatch.Errors.{ok, err, config_invalid, key, env_unset}
use pricewatch.Config.Secret.{RawSecret, secret_of, secret_problems, resolve, Environment}
use pricewatch.Config.Model.{SiteId, asos, freepeople, AccountConfig, account, db_path}
use pricewatch.Config.Raw.{
  RawGeneral, RawAccount, RawTriggers, RawKind, RawNotifier, RawConfig, field_problems,
  general_problems, account_problems, triggers_problems, notifier_problems,
}
use pricewatch.Config.Load.{Host, contents, build, unique_names, duplicates, model_validate, load}
use pricewatch.Config.Names.{IsSafe, HasAccount}
use pricewatch.Config.Valid.{IsValid}
use pricewatch.Config.Loaded.{model_validate-IsValid, load-account}

abbrev host : Host
host = record { expand = λ p. some p; default_state_dir = codes "/home/u/.local/share/pricewatch" }

abbrev general : RawGeneral
general = record {
  poll_interval_minutes = some (pos 60);
  jitter_minutes = none;
  state_dir = none;
  db_path = none;
  log_level = none;
  max_consecutive_failures = none;
  raw_response_retention = none;
  extra = [];
}

abbrev triggers : RawTriggers
triggers = record {
  any_drop = none;
  percent_off = some (pos 20);
  target_price = none;
  lowest_ever = none;
  back_in_stock = some false;
  back_in_stock_max_lookups = none;
  extra = [];
}

abbrev raw_account : Text → SiteId → RawAccount
raw_account name site = record {
  name = some name;
  site = some site;
  enabled = none;
  home_url = some (codes "https://x");
  extra = [];
}

abbrev phone : RawNotifier
phone = record {
  name = some (codes "phone");
  enabled = none;
  kind =
      RawKind.raw_ntfy none (some (codes "topic"))
        (some (RawSecret.table none (some (codes "NTFY")) [])) none;
  extra = [];
}

abbrev raw : RawConfig
raw = record {
  general = general;
  accounts = raw_account (codes "asos-uk") asos ∷ raw_account (codes "fp") freepeople ∷ [];
  triggers = triggers;
  notifiers = phone ∷ [];
  extra = [];
}

abbrev parse : Text → Option RawConfig
parse t = some raw

raw_validates : model_validate host raw ≡ ok (build host raw)
unfolding model_validate field_problems general_problems account_problems triggers_problems
    notifier_problems unique_names duplicates text_eq
raw_validates = refl

raw_loads : load host parse (contents []) ≡ ok (build host raw)
unfolding load model_validate field_problems general_problems account_problems triggers_problems
    notifier_problems unique_names duplicates text_eq
raw_loads = refl

-- A polling interval below the floor and a misspelt key are both reported.
two_problems :
    model_validate host (record raw {
      general = record general {
        poll_interval_minutes = some (pos 29);
        extra = codes "poll_intervall" ∷ [];
      };
    })
    ≡ err (
        config_invalid (
          (key (codes "general") ∷ key (codes "poll_interval_minutes") ∷ [])
          ∷ (key (codes "general") ∷ key (codes "poll_intervall") ∷ [])
          ∷ []))
unfolding model_validate field_problems general_problems account_problems triggers_problems
    notifier_problems
two_problems = refl

-- A name given twice is refused.
name_twice :
    model_validate host (record raw {
      accounts = raw_account (codes "fp") asos ∷ raw_account (codes "fp") freepeople ∷ [];
    })
    ≡ err (config_invalid ([] ∷ []))
unfolding model_validate field_problems general_problems account_problems triggers_problems
    notifier_problems unique_names duplicates text_eq
name_twice = refl

abbrev environ : Environment
environ name = none

abbrev token : RawSecret
token = RawSecret.table none (some (codes "NTFY")) []

token_valid : secret_problems token ≡ []
unfolding secret_problems
token_valid = refl

token_unset : resolve environ (secret_of token) ≡ err (env_unset (codes "NTFY"))
unfolding resolve secret_of
token_unset = refl

model_validate-IsValid_example : IsValid (build host raw)
model_validate-IsValid_example = model_validate-IsValid host raw (build host raw) raw_validates

abbrev asos_uk : AccountConfig
asos_uk = record {
  name = codes "asos-uk";
  site = asos;
  enabled = true;
  home_url = some (codes "https://x");
}

load-account_example :
    (account (build host raw) (codes "asos-uk") ≡ ok asos_uk) × IsSafe (codes "asos-uk")
load-account_example =
    load-account host raw parse [] (build host raw) asos_uk refl raw_loads HasAccount.here

default_database : db_path (build host raw) ≡ codes "/home/u/.local/share/pricewatch/pricewatch.db"
unfolding db_path
default_database = refl
