-- ===== src/Config/Loaded.antt =====
-- What `Config.load` of src/pricewatch/config.py returns, and the lookup of accounts in it.
use pricewatch.Base.{◌≡◌, true, Option, some, List, Text, codes, arith, All, subst, is_empty, map}
use pricewatch.Errors.{ok, key}
use pricewatch.Config.Fields.{is_name, forbid, under, each}
use pricewatch.Config.Model.{AccountConfig, Config, account}
use pricewatch.Config.Raw.{
  RawConfig, general_problems, account_problems, triggers_problems, notifier_problems,
  field_problems,
}
use pricewatch.Config.Load.{
  Host, contents, build_account, build_notifier, build, unique_names, model_validate, load,
}
use pricewatch.Config.Names.{
  Nodup, duplicates-Nodup, IsSafe, is_name-IsSafe, HasAccount, find_account-HasAccount,
}
use pricewatch.Config.Valid.{
  IsValid, ValidAccount, ValidNotifier, is_empty-append, is_empty-under, general-Valid,
  account-Valid, triggers-Valid, notifier-Valid, each-All,
}

valid_name :
    (a : AccountConfig) {rest : List AccountConfig}
    → HasAccount a rest
    → All ValidAccount rest
    → is_name a.name ≡ true
valid_name a HasAccount.here v = v.0.0
valid_name a (HasAccount.later w) v = valid_name a w v.1

module _ (h : Host) (raw : RawConfig) where
  validate-parts :
      (c : Config)
      → model_validate h raw ≡ ok c
      → (is_empty (field_problems raw) ≡ true)
        × (unique_names (build h raw) ≡ true)
        × (build h raw ≡ c)
  unfolding model_validate
  validate-parts c e = ground arith

  -- The four parts of the fields' problems.
  fields-parts :
      is_empty (field_problems raw) ≡ true
      → (is_empty (general_problems raw.general) ≡ true)
        × (is_empty (each account_problems 0 raw.accounts) ≡ true)
        × (is_empty (triggers_problems raw.triggers) ≡ true)
        × (is_empty (each notifier_problems 0 raw.notifiers) ≡ true)
  unfolding field_problems
  fields-parts e =
      let (front, _) = is_empty-append _ (forbid raw.extra) e in
      let (gat, n) =
        is_empty-append _ (under (key (codes "notifiers")) (each notifier_problems 0 raw.notifiers))
          front in
      let (ga, t) =
        is_empty-append _ (under (key (codes "triggers")) (triggers_problems raw.triggers)) gat in
      let (g, a) =
        is_empty-append _ (under (key (codes "accounts")) (each account_problems 0 raw.accounts))
          ga in
      (is_empty-under _ _ g, is_empty-under _ _ a, is_empty-under _ _ t, is_empty-under _ _ n)

  names-parts :
      unique_names (build h raw) ≡ true
      → Nodup (map (λ a. a.name) (map build_account raw.accounts))
        × Nodup (map (λ n. n.name) (map build_notifier raw.notifiers))
  unfolding unique_names
  names-parts e = (duplicates-Nodup _ (ground arith), duplicates-Nodup _ (ground arith))

  -- A configuration that validation returns meets every declared bound, has names of the right
  -- shape, https addresses and secrets of exactly one source, and no account name and no notifier
  -- name twice.
  pub model_validate-IsValid : (c : Config) → model_validate h raw ≡ ok c → IsValid c
  model_validate-IsValid c e =
      let (no_problems, unique, same) = validate-parts c e in
      let (g, a, t, n) = fields-parts no_problems in
      let (accounts, notifiers) = names-parts unique in
      subst IsValid same (record {
        general = general-Valid h raw.general g;
        accounts =
            each-All account_problems build_account ValidAccount account-Valid 0 raw.accounts a;
        triggers = triggers-Valid raw.triggers t;
        notifiers =
            each-All notifier_problems build_notifier ValidNotifier notifier-Valid 0 raw.notifiers
              n;
        account_names = accounts;
        notifier_names = notifiers;
      })

  -- After a load, each configured account is found by its own name, and its name is safe as the
  -- name of a file.
  pub load-account :
      (parse : Text → Option RawConfig) (text : Text) (c : Config) (a : AccountConfig)
      → parse text ≡ some raw
      → load h parse (contents text) ≡ ok c
      → HasAccount a c.accounts
      → (account c a.name ≡ ok a) × IsSafe a.name
  unfolding load account
  load-account parse text c a p e w =
      let v = model_validate-IsValid c (ground arith) in
      (
        rw (find_account-HasAccount a w v.account_names, account),
        is_name-IsSafe a.name (valid_name a w v.accounts),
      )
