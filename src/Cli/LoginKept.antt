-- ===== src/Cli/LoginKept.antt =====
-- What `login` of src/pricewatch/cli.py may do to the database, however it ends.
use pricewatch.Base.{ℕ, ◌≡◌, Bool, true, Option, none, some, List, [], Text}
use pricewatch.Base.Unicode.{Unicode}
use pricewatch.Errors.{Result, ok, err}
use pricewatch.Config.Model.{AccountConfig, Config, account, site_text}
use pricewatch.Db.Files.{Migration, FileEntry}
use pricewatch.Db.Connection.{Engine, Database, Conn, rollback}
use pricewatch.Db.Runner.{open_database}
use pricewatch.Db.Advances.{
  KeepsShipped, Advances-refl, Advances-trans, Settled, Settled-Advances, open_database-Settled,
}
use pricewatch.Accounts.Table.{Table, record_capture}
use pricewatch.Accounts.Transaction.{Accounts, IsLawful, update_table}
use pricewatch.Session.Stored.{Floats}
use pricewatch.Session.Crypto.{Fernet, SessionCrypto, KeyPlace, load_or_create}
use pricewatch.Session.Store.{Codec}
use pricewatch.Commands.Login.{World, LoginResult, run_login}
use mathlib.Core.Option
use pricewatch.Cli.Output.{Printed, raises}
use pricewatch.Cli.Session.{Files}
use pricewatch.Cli.Login.{login_on, login, opening_lines, login_printed}
use pricewatch.Cli.Kept.{UniqueIn, Keeps, update_table-Settled}
use pricewatch.Cli.ClearKept.{record_capture-IsUnique}

module _ {fl : Floats} (f : Fernet) (codec : Codec fl) (generated : List ℕ) (E : Engine)
    (sha256 : Text → Text) (u : Unicode) (accounts : Accounts E.Schema)
    (law : IsLawful accounts) where
  same : (d : Database E) → Keeps E sha256 accounts d d
  same = Advances-refl E sha256 (UniqueIn E sha256 accounts)

  module _ (w : World fl) where
    login_on-Keeps :
        (crypto : SessionCrypto) (a : AccountConfig) (holder : Text) (headless : Bool)
        (files : Files) (c : Conn E)
        → c.pending ≡ none
        → let r =
            login_on f codec generated E sha256 u accounts crypto a w holder headless files c in
          Keeps E sha256 accounts c.committed r.1.1.committed
    unfolding login_on
    login_on-Keeps crypto a holder headless files c h = go (
        (run_login fl f codec crypto a.name (record w { updated = updated.0 }) holder
          (site_text a.site) headless
          (record { disk = files.disk; table = accounts.read c.committed.schema })).0)
      where
        g : Table → Table
        g = record_capture w.captured_at a.name w.has_adapter

        updated : Result (Unit {0}) × Conn E
        updated = update_table E accounts g c

        go :
            (r : Option (Result (LoginResult fl)))
            → let c' : Conn E = elim r [ some (ok _) ↦ updated.1 | _ ↦ c ] in
              Keeps E sha256 accounts c.committed c'.committed
        go none = same c.committed
        go (some (err e)) = same c.committed
        go (some (ok r)) = Settled-Advances E sha256 (UniqueIn E sha256 accounts) c updated (
            update_table-Settled E sha256 accounts g c law
              (record_capture-IsUnique w.captured_at a.name w.has_adapter) h)

    pub login-Keeps :
        (now : Migration → Text) (fs : List FileEntry) (path_of : Text → Text) (holder : Text)
        (headless : Bool) (name : Text) (config : Config) (files : Files) (c : Conn E)
        → KeepsShipped E sha256 (UniqueIn E sha256 accounts) u fs
        → c.pending ≡ none
        → let r =
            login f codec generated E sha256 u accounts now fs path_of w holder headless name config
              files c in
          Keeps E sha256 accounts c.committed r.1.1.committed
    unfolding login rollback
    login-Keeps now fs path_of holder headless name config files c kept h =
        go (account config name) (load_or_create f generated files.keys)
          (open_database E sha256 u now fs true c)
          (open_database-Settled E sha256 (UniqueIn E sha256 accounts) u now fs c kept h)
      where
        go :
            (x : Result AccountConfig) (o : Result SessionCrypto × KeyPlace)
            (d : Result (Unit {0}) × Conn E)
            → Settled E sha256 (UniqueIn E sha256 accounts) c d
            → let r : Option Printed × (Files × Conn E) = elim x [
              | err e ↦ (some (record { lines = []; ending = raises e }), (files, c))
              | ok a ↦ elim o.0 [
                | err e ↦ (
                  some (record { lines = []; ending = raises e }),
                  (record files { keys = o.1 }, c),
                )
                | ok k ↦
                    let before = opening_lines a w.has_adapter in
                    elim d.0 [
                      | err e ↦ (
                        some (record { lines = before; ending = raises e }),
                        (record files { keys = o.1 }, rollback E d.1),
                      )
                      | ok _ ↦
                          let (r, (files'', c'')) =
                            login_on f codec generated E sha256 u accounts k a w holder headless
                              (record files { keys = o.1 })
                              d.1 in
                          (
                            Option.map (login_printed a.name (path_of a.name) before) r,
                            (files'', rollback E c''),
                          )
                    ]
              ]
            ] in
              Keeps E sha256 accounts c.committed r.1.1.committed
        go (err e) o d s = same c.committed
        go (ok a) (err e, keys) d s = same c.committed
        go (ok a) (ok k, keys) (err e, c') s = s
        go (ok a) (ok k, keys) (ok t, c') s =
            Advances-trans E sha256 (UniqueIn E sha256 accounts) s.1
              (login_on-Keeps k a holder headless (record files { keys = keys }) c' s.0)
