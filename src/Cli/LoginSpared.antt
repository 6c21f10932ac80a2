-- ===== src/Cli/LoginSpared.antt =====
-- What `login` of src/pricewatch/cli.py makes of the sessions of other accounts.
use mathlib.Core.Option
use pricewatch.Base.{
  ℕ, ◌≡◌, refl, Bool, true, false, Option, some, List, [], Text, ap, sym, ◌∙◌, subst, text_eq,
}
use pricewatch.Base.Unicode.{Unicode}
use pricewatch.Errors.{Result, ok, err}
use pricewatch.Config.Model.{AccountConfig, Config, account, site_text}
use pricewatch.Config.Names.{Finds, account-Finds}
use pricewatch.Db.Files.{Migration, FileEntry}
use pricewatch.Db.Connection.{Engine, Conn, rollback}
use pricewatch.Db.Runner.{open_database}
use pricewatch.Accounts.Table.{record_capture}
use pricewatch.Accounts.Transaction.{Accounts, update_table}
use pricewatch.Session.Stored.{Floats}
use pricewatch.Session.Crypto.{Fernet, IsFernet, SessionCrypto, KeyPlace, load_or_create}
use pricewatch.Session.Store.{Codec, IsCodec, load}
use pricewatch.Commands.Login.{World}
use pricewatch.Commands.Others.{run_login-Spares}
use pricewatch.Cli.Output.{Printed, raises}
use pricewatch.Cli.Session.{Files}
use pricewatch.Cli.Login.{opening_lines, login_printed, login_on, login}
use pricewatch.Cli.Spared.{Opens}

module _ {fl : Floats} (f : Fernet) (codec : Codec fl) (generated : List ℕ) (crypto : SessionCrypto)
    (other_name : Text) (E : Engine) (sha256 : Text → Text) (u : Unicode)
    (accounts : Accounts E.Schema) (w : World fl) (lawful : IsFernet f)
    (is_codec : IsCodec fl codec) where
  -- The key is as before, and so is what loads for the other account, if it is another.
  abbrev pub OnlyOwn : Text → Files → Files → Type 0
  OnlyOwn name files files' =
      (files'.keys ≡ files.keys)
      × (text_eq name other_name ≡ false
          → load f codec crypto other_name files'.disk ≡ load f codec crypto other_name files.disk)

  login_on-OnlyOwn :
      (k : SessionCrypto) (a : AccountConfig) (holder : Text) (headless : Bool) (files : Files)
      (c : Conn E)
      → k ≡ crypto
      → let r = login_on f codec generated E sha256 u accounts k a w holder headless files c in
        OnlyOwn a.name files r.1.0
  unfolding login_on
  login_on-OnlyOwn k a holder headless files c same =
      let updated = update_table E accounts (record_capture w.captured_at a.name w.has_adapter) c in
      (
        refl,
        λ apart. rw same (
            run_login-Spares f codec crypto a.name other_name (record w { updated = updated.0 })
              (record { disk = files.disk; table = accounts.read c.committed.schema }) lawful
              is_codec apart holder (site_text a.site) headless),
      )

  pub login-OnlyOwn :
      (now : Migration → Text) (fs : List FileEntry) (path_of : Text → Text) (holder : Text)
      (headless : Bool) (name : Text) (config : Config) (files : Files) (c : Conn E)
      → Opens f codec generated crypto other_name files.keys
      → let r =
          login f codec generated E sha256 u accounts now fs path_of w holder headless name config
            files c in
        OnlyOwn name files r.1.0
  unfolding login
  login-OnlyOwn now fs path_of holder headless name config files c h =
      go (account config name) (load_or_create f generated files.keys)
        (open_database E sha256 u now fs true c) (account-Finds config name) h
    where
      go :
          (x : Result AccountConfig) (o : Result SessionCrypto × KeyPlace)
          (d : Result (Unit {0}) × Conn E)
          → Finds config name x
          → o ≡ (ok crypto, files.keys)
          → let r : Option Printed × (Files × Conn E) = elim x [
            | err e ↦ (some (record { lines = []; ending = raises e }), (files, c))
            | ok a ↦ elim o.0 [
              | err e ↦ (
                some (record { lines = []; ending = raises e }),
                (record files { keys = o.1 }, c),
              )
              | ok k ↦
                  let before = opening_lines a w.has_adapter in
                  elim d.0 [
                    | err e ↦ (
                      some (record { lines = before; ending = raises e }),
                      (record files { keys = o.1 }, rollback E d.1),
                    )
                    | ok _ ↦
                        let (r, (files'', c'')) =
                          login_on f codec generated E sha256 u accounts k a w holder headless
                            (record files { keys = o.1 })
                            d.1 in
                        (
                          Option.map (login_printed a.name (path_of a.name) before) r,
                          (files'', rollback E c''),
                        )
                  ]
            ]
          ] in
            OnlyOwn name files r.1.0
      go (err e) o d n p = (refl, λ _. refl)
      go (ok a) (err e, keys) d n p = (ap (λ q. q.1) p, λ _. refl)
      go (ok a) (ok k, keys) (err e, c') n p = (ap (λ q. q.1) p, λ _. refl)
      go (ok a) (ok k, keys) (ok t, c') n p =
          let by : k ≡ crypto = cc p in
          let (stays, loads) =
            login_on-OnlyOwn k a holder headless (record files { keys = keys }) c' by in
          (
            stays ∙ ap (λ q. q.1) p,
            λ apart. loads (subst (λ m. text_eq m other_name ≡ false) (sym n.0) apart),
          )
