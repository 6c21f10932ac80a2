-- ===== src/Config/Valid.antt =====
-- What a configuration that src/pricewatch/config.py has loaded satisfies.
use pricewatch.Base.{
  String, ℕ, suc, ◌≡◌, refl, ◌≤◌, true, Option, none, some, List, [], ◌∷◌, ◌++◌, codes, arith, All,
  is_empty, map, length,
}
use pricewatch.Base.Int.{ℤ, pos, ◌≤ℤ◌}
use pricewatch.Errors.{Part, key, index}
use pricewatch.Config.Fields.{Problems, is_name, https_only, forbid, under, each}
use pricewatch.Config.Secret.{
  SecretValue, RawSecret, secret_problems, secret_of, exactly_one_source,
}
use pricewatch.Config.Model.{
  GeneralConfig, AccountConfig, TriggersConfig, NotifierKind, ntfy, telegram, discord, smtp,
  Notifier, Config,
}
use pricewatch.Config.Raw.{
  RawGeneral, RawAccount, RawTriggers, RawKind, raw_ntfy, raw_telegram, raw_discord, raw_smtp,
  RawNotifier, general_problems, account_problems, triggers_problems, kind_problems,
  notifier_problems, kind_tag, field, secret_field, required_secret, required,
}
use pricewatch.Config.Load.{
  Host, build_general, build_account, build_triggers, build_kind, build_notifier, build_secret,
  required_secret_of,
}
use pricewatch.Config.Names.{Nodup}

abbrev pub Between : ℤ → ℤ → ℤ → Type 0
Between lo hi x = (lo ≤ℤ x) × (x ≤ℤ hi)

abbrev pub ValidGeneral : GeneralConfig → Type 0
ValidGeneral g =
    (pos 30 ≤ℤ g.poll_interval_minutes)
    × Between (pos 0) (pos 120) g.jitter_minutes
    × (pos 1 ≤ℤ g.max_consecutive_failures)
    × (pos 0 ≤ℤ g.raw_response_retention)

abbrev pub ValidAccount : AccountConfig → Type 0
ValidAccount a = (is_name a.name ≡ true) × (https_only a.home_url ≡ true)

abbrev pub InPercent : Option ℤ → Type 0
InPercent none = Unit
InPercent (some p) = Between (pos 1) (pos 99) p

abbrev pub ValidTriggers : TriggersConfig → Type 0
ValidTriggers t = InPercent t.percent_off × (pos 0 ≤ℤ t.back_in_stock_max_lookups)

abbrev pub ValidSecret : Option SecretValue → Type 0
ValidSecret none = Unit
ValidSecret (some s) = exactly_one_source s ≡ true

abbrev pub ValidKind : NotifierKind → Type 0
ValidKind (ntfy server topic token priority) = (1 ≤ length topic) × ValidSecret token
ValidKind (telegram bot_token chat_id) = ValidSecret (some bot_token) × (1 ≤ length chat_id)
ValidKind (discord webhook_url) = ValidSecret (some webhook_url)
ValidKind (smtp host port username password from to starttls) =
    (1 ≤ length host)
    × Between (pos 1) (pos 65535) port
    × ValidSecret password
    × (3 ≤ length from)
    × (1 ≤ length to)

abbrev pub ValidNotifier : Notifier → Type 0
ValidNotifier n = (is_name n.name ≡ true) × ValidKind n.kind

pub record IsValid (c : Config) : Type 0 where
  pub general : ValidGeneral c.general
  pub accounts : All ValidAccount c.accounts
  pub triggers : ValidTriggers c.triggers
  pub notifiers : All ValidNotifier c.notifiers
  pub account_names : Nodup (map (λ a. a.name) c.accounts)
  pub notifier_names : Nodup (map (λ n. n.name) c.notifiers)

pub is_empty-append :
    (xs ys : Problems) → is_empty (xs ++ ys) ≡ true → (is_empty xs ≡ true) × (is_empty ys ≡ true)
is_empty-append [] ys h = (refl, h)
is_empty-append (x ∷ xs) ys h = absurd (cc h)

pub is_empty-under :
    (part : Part) (xs : Problems) → is_empty (under part xs) ≡ true → is_empty xs ≡ true
is_empty-under part [] h = refl
is_empty-under part (x ∷ xs) h = absurd (cc h)

pub general-Valid :
    (h : Host) (g : RawGeneral)
    → is_empty (general_problems g) ≡ true
    → ValidGeneral (build_general h g)
unfolding general_problems
general-Valid h g e = ground arith

pub account-Valid :
    (a : RawAccount) → is_empty (account_problems a) ≡ true → ValidAccount (build_account a)
unfolding account_problems
account-Valid a e = ground arith

pub triggers-Valid :
    (t : RawTriggers) → is_empty (triggers_problems t) ≡ true → ValidTriggers (build_triggers t)
unfolding triggers_problems
triggers-Valid t e = ground arith

secret-Valid :
    (raw : RawSecret)
    → is_empty (secret_problems raw) ≡ true
    → exactly_one_source (secret_of raw) ≡ true
unfolding secret_problems
secret-Valid raw e = ground arith

secret_field-Valid :
    (name : String) (s : Option RawSecret)
    → is_empty (secret_field name s) ≡ true
    → ValidSecret (build_secret s)
secret_field-Valid name none e = tt
secret_field-Valid name (some raw) e =
    secret-Valid raw (is_empty-under (key (codes name)) (secret_problems raw) e)

required_secret-Valid :
    (name : String) (s : Option RawSecret)
    → is_empty (required_secret name s) ≡ true
    → ValidSecret (some (required_secret_of s))
required_secret-Valid name none e = absurd (cc e)
required_secret-Valid name (some raw) e =
    secret-Valid raw (is_empty-under (key (codes name)) (secret_problems raw) e)

kind-Valid : (k : RawKind) → is_empty (kind_problems k) ≡ true → ValidKind (build_kind k)
unfolding kind_problems
kind-Valid (raw_ntfy server topic token priority) e =
    ground (arith, secret_field-Valid "token" token)
kind-Valid (raw_telegram bot_token chat_id) e =
    let (secret, rest) = is_empty-append (required_secret "bot_token" bot_token) _ e in
    (required_secret-Valid "bot_token" bot_token secret, ground arith)
kind-Valid (raw_discord webhook_url) e = required_secret-Valid "webhook_url" webhook_url e
kind-Valid (raw_smtp host port username password from to starttls) e =
    ground (arith, secret_field-Valid "password" password)

pub notifier-Valid :
    (n : RawNotifier) → is_empty (notifier_problems n) ≡ true → ValidNotifier (build_notifier n)
unfolding notifier_problems
notifier-Valid n e =
    let name = field "name" (required is_name n.name) in
    let all = is_empty-under (key (kind_tag n.kind)) _ e in
    let (front, _) = is_empty-append (name ++ kind_problems n.kind) (forbid n.extra) all in
    let (named, kind) = is_empty-append name (kind_problems n.kind) front in
    (ground arith, kind-Valid n.kind kind)

pub each-All :
    {A B : Type 0} (problems : A → Problems) (make : A → B) (P : B → Type 0)
    → ((a : A) → is_empty (problems a) ≡ true → P (make a))
    → (i : ℕ) (xs : List A) → is_empty (each problems i xs) ≡ true
    → All P (map make xs)
each-All problems make P f i [] h = tt
each-All problems make P f i (x ∷ xs) h =
    let (first, rest) =
      is_empty-append (under (index i) (problems x)) (each problems (suc i) xs) h in
    (f x (is_empty-under (index i) (problems x) first), each-All problems make P f (suc i) xs rest)
