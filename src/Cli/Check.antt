-- ===== src/Cli/Check.antt =====
-- `config check` of src/pricewatch/cli.py.
use pricewatch.Base.{
  Bool, Option, none, some, List, [], ◌∷◌, ◌++◌, Text, codes, length, map, is_empty, if◌then◌else◌,
}
use pricewatch.Redaction.Value.{decimal}
use pricewatch.Errors.{Error, ok, err}
use pricewatch.Config.Secret.{SecretValue, Environment, resolve}
use pricewatch.Config.Model.{
  site_text, AccountConfig, TriggersConfig, NotifierKind, ntfy, telegram, discord, smtp, Notifier,
  Config, db_path,
}
use pricewatch.Cli.Output.{Line, out, Printed, finished, exits, int_text, join_comma, or_text}

abbrev pub state_text : Bool → Text
state_text b = if b then codes "enabled" else codes "disabled"

unfoldable pub account_line : AccountConfig → Line
unfolding site_text
account_line a = out (
    codes "    - "
    ++ a.name
    ++ codes " ["
    ++ site_text a.site
    ++ codes "] "
    ++ state_text a.enabled)

-- `notifier.type`
abbrev pub kind_text : NotifierKind → Text
kind_text (ntfy server topic token priority) = codes "ntfy"
kind_text (telegram bot_token chat_id) = codes "telegram"
kind_text (discord webhook_url) = codes "discord"
kind_text (smtp host port username password from to starttls) = codes "smtp"

unfoldable pub notifier_line : Notifier → Line
notifier_line n = out (
    codes "    - "
    ++ n.name
    ++ codes " ["
    ++ kind_text n.kind
    ++ codes "] "
    ++ state_text n.enabled)

abbrev pub when : Bool → Text → List Text
when b t = if b then t ∷ [] else []

-- The triggers that are on.
unfoldable pub active_triggers : TriggersConfig → List Text
unfolding int_text
active_triggers t =
    when t.any_drop (codes "any_drop")
    ++ when t.target_price (codes "target_price")
    ++ when t.lowest_ever (codes "lowest_ever")
    ++ when t.back_in_stock (codes "back_in_stock")
    ++ elim t.percent_off [
      | none ↦ []
      | some n ↦ (codes "percent_off>=" ++ int_text n ++ codes "%") ∷ []
    ]

abbrev pub named : Text → Option SecretValue → List (Text × SecretValue)
named field none = []
named field (some s) = (field, s) ∷ []

-- The secrets of a notifier that `getattr` finds, by the names of their fields.
unfoldable pub secrets_of : NotifierKind → List (Text × SecretValue)
secrets_of (ntfy server topic token priority) = named (codes "token") token
secrets_of (telegram bot_token chat_id) = (codes "bot_token", bot_token) ∷ []
secrets_of (discord webhook_url) = (codes "webhook_url", webhook_url) ∷ []
secrets_of (smtp host port username password from to starttls) = named (codes "password") password

module _ (environ : Environment) (message : Error → Text) where
  -- The line of a secret that does not resolve.
  unfoldable pub unresolved_field : Notifier → Text × SecretValue → List Line
  unfolding resolve
  unresolved_field n (field, s) = elim (resolve environ s) [
    | ok t ↦ []
    | err e ↦ out (codes "    - " ++ n.name ++ codes "." ++ field ++ codes ": " ++ message e) ∷ []
  ]

  unfoldable pub unresolved_fields : Notifier → List (Text × SecretValue) → List Line
  unfolding unresolved_field
  unresolved_fields n [] = []
  unresolved_fields n (f ∷ fs) = unresolved_field n f ++ unresolved_fields n fs

  -- The loop over the notifiers.
  unfoldable pub unresolved : List Notifier → List Line
  unfolding unresolved_fields secrets_of
  unresolved [] = []
  unresolved (n ∷ ns) =
      (if n.enabled then unresolved_fields n (secrets_of n.kind) else []) ++ unresolved ns

  -- What is printed before the secrets.
  unfoldable pub settings : Text → Config → List Line
  unfolding db_path decimal int_text account_line active_triggers notifier_line join_comma
  settings path c =
      out (codes "OK  " ++ path)
      ∷ out (codes "  state dir       " ++ c.general.state_dir)
      ∷ out (codes "  database        " ++ db_path c)
      ∷ out (
          codes "  poll interval   "
          ++ int_text c.general.poll_interval_minutes
          ++ codes "m (+/- "
          ++ int_text c.general.jitter_minutes
          ++ codes "m jitter)")
      ∷ out (codes "  accounts        " ++ decimal (length c.accounts))
      ∷ (map account_line c.accounts
          ++ out (
              codes "  triggers        "
              ++ or_text (join_comma (active_triggers c.triggers)) (codes "none"))
            ∷ out (codes "  notifiers       " ++ decimal (length c.notifiers))
            ∷ map notifier_line c.notifiers)

  -- `config check`, once the config is loaded.
  unfoldable pub config_check : Text → Config → Printed
  unfolding settings unresolved
  config_check path c =
      if is_empty (unresolved c.notifiers)
      then record {
        lines = settings path c ++ (out (codes "  secrets         all resolved") ∷ []);
        ending = finished;
      }
      else record {
        lines =
            settings path c
            ++ (out (codes "  secrets         UNRESOLVED") ∷ unresolved c.notifiers);
        ending = exits 1;
      }
