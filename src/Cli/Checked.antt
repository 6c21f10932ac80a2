-- ===== src/Cli/Checked.antt =====
-- What the end of `config check` in src/pricewatch/cli.py says of the config.
use pricewatch.Base.{
  ℕ, Bool, true, false, List, [], ◌∷◌, Text, if◌then◌else◌, ◌+◌, Option, none, some,
}
use pricewatch.Errors.{Error, Result, ok, err}
use pricewatch.Config.Secret.{SecretValue, Environment, resolve}
use pricewatch.Config.Model.{NotifierKind, ntfy, telegram, discord, smtp, Notifier, Config}

abbrev pub is_ok {ℓ} : {A : Type ℓ} → Result A → Bool
is_ok (ok a) = true
is_ok (err e) = false

-- The secrets that a kind of notifier is given.
abbrev pub given : Option SecretValue → List SecretValue
given none = []
given (some s) = s ∷ []

abbrev pub secrets : NotifierKind → List SecretValue
secrets (ntfy server topic token priority) = given token
secrets (telegram bot_token chat_id) = bot_token ∷ []
secrets (discord webhook_url) = webhook_url ∷ []
secrets (smtp host port username password from_address to_addresses starttls) = given password

module _ (environ : Environment) (message : Error → Text) where
  -- How many of these secrets do not resolve.
  abbrev pub failing_secrets : List SecretValue → ℕ
  failing_secrets [] = 0
  failing_secrets (s ∷ ss) = (if is_ok (resolve environ s) then 0 else 1) + failing_secrets ss

  -- How many secrets of enabled notifiers do not resolve.
  abbrev pub failing : List Notifier → ℕ
  failing [] = 0
  failing (n ∷ ns) = (if n.enabled then failing_secrets (secrets n.kind) else 0) + failing ns
