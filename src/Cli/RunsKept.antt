-- ===== src/Cli/RunsKept.antt =====
-- What any run of commands of src/pricewatch/cli.py leaves in the database.
use pricewatch.Base.{◌≡◌, refl, All, List, [], ◌∷◌, ◌++◌, Text}
use pricewatch.Base.Unicode.{Unicode}
use pricewatch.Db.Connection.{Engine}
use pricewatch.Db.Advances.{KeepsShipped, Advances-refl, Advances-trans}
use pricewatch.Accounts.Listing.{ItemRow}
use pricewatch.Accounts.Transaction.{Accounts, IsLawful}
use pricewatch.Session.Stored.{Floats}
use pricewatch.Session.Crypto.{Fernet}
use pricewatch.Session.Store.{Codec}
use pricewatch.Commands.Discover.{Tools}
use pricewatch.Cli.Kept.{
  UniqueIn, Keeps, db_upgrade-Keeps, db_version-Keeps, init-Keeps, accounts_cmd-Keeps,
}
use pricewatch.Cli.Runs.{
  Surroundings, State, Command, init_run, db_version_run, db_upgrade_run, accounts_run, status_run,
  clear_run, login_run, discover_run, connected, run, run_all,
}
use pricewatch.Cli.ClearKept.{session_clear-Keeps}
use pricewatch.Cli.LoginKept.{login-Keeps}
use pricewatch.Db.Built.{Distinct, ledger}
use pricewatch.Db.Connection.{Row}

module _ {fl : Floats} (t : Tools) (f : Fernet) (codec : Codec fl) (E : Engine)
    (sha256 : Text → Text) (u : Unicode) (accounts : Accounts E.Schema)
    (items : E.Schema → List ItemRow) (law : IsLawful accounts) where
  run-Keeps :
      (g : Surroundings) (c : Command fl) (s : State E)
      → KeepsShipped E sha256 (UniqueIn E sha256 accounts) u g.shipped
      → Keeps E sha256 accounts s.database
          ((run t f codec E sha256 u accounts items g c s).database)
  unfolding run
  run-Keeps g init_run s k =
      init-Keeps E sha256 accounts u law items g.now g.synced_at g.shipped g.config
        (connected t f codec E sha256 u accounts items g s) k refl
  run-Keeps g db_version_run s k =
      db_version-Keeps E sha256 accounts u law g.shipped
        (connected t f codec E sha256 u accounts items g s) refl
  run-Keeps g db_upgrade_run s k =
      db_upgrade-Keeps E sha256 accounts u law g.now g.shipped
        (connected t f codec E sha256 u accounts items g s) k refl
  run-Keeps g accounts_run s k =
      accounts_cmd-Keeps E sha256 accounts u law items g.now g.synced_at g.shipped g.config
        (connected t f codec E sha256 u accounts items g s) k refl
  run-Keeps g (status_run times moment name) s k =
      Advances-refl E sha256 (UniqueIn E sha256 accounts) s.database
  run-Keeps g (clear_run agreed confirmed name) s k =
      session_clear-Keeps f codec g.generated E sha256 u accounts law g.now g.shipped agreed
        confirmed name g.config s.files (connected t f codec E sha256 u accounts items g s) k refl
  run-Keeps g (login_run path_of w holder headless name) s k =
      login-Keeps f codec g.generated E sha256 u accounts law w g.now g.shipped path_of holder
        headless name g.config s.files (connected t f codec E sha256 u accounts items g s) k refl
  run-Keeps g (discover_run captures_dir w holder name) s k =
      Advances-refl E sha256 (UniqueIn E sha256 accounts) s.database

  -- The migration files that each run ships keep the property.
  abbrev pub AllKeep : List (Surroundings × Command fl) → Type 0
  AllKeep = All (λ r. KeepsShipped E sha256 (UniqueIn E sha256 accounts) u (r.0).shipped)

  all-Keeps :
      (runs : List (Surroundings × Command fl)) (s : State E)
      → AllKeep runs
      → Keeps E sha256 accounts s.database
          ((run_all t f codec E sha256 u accounts items runs s).database)
  unfolding run_all
  all-Keeps [] s q = Advances-refl E sha256 (UniqueIn E sha256 accounts) s.database
  all-Keeps ((g, c) ∷ rest) s q =
      Advances-trans E sha256 (UniqueIn E sha256 accounts) (run-Keeps g c s q.0)
        (all-Keeps rest (run t f codec E sha256 u accounts items g c s) q.1)

  -- Whatever commands run, one after another, on one state directory and one database, which is a
  -- file of its own, each with any config of these, migration files, clock and answers, and however
  -- each ends: the migrations recorded before are the first ones recorded after, with none of them
  -- changed; and where no version was recorded twice and the ids and names of the accounts were
  -- unique, that is so after. Each shipped migration file whose script runs to its end keeps ids
  -- and names unique. A `discover` has no `--out`: its capture goes into the directory of captures.
  pub run_all-Keeps :
      (runs : List (Surroundings × Command fl)) (s : State E)
      → AllKeep runs
      → Distinct (ledger E sha256 s.database)
      → UniqueIn E sha256 accounts s.database.schema
      → let d = (run_all t f codec E sha256 u accounts items runs s).database in
        ((added : List Row) × (ledger E sha256 d ≡ ledger E sha256 s.database ++ added))
        × Distinct (ledger E sha256 d)
        × UniqueIn E sha256 accounts d.schema
  run_all-Keeps runs s q h k =
      let a = all-Keeps runs s q in ((a.added, a.recorded), a.distinct h, a.kept k)
