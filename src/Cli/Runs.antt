-- ===== src/Cli/Runs.antt =====
-- Runs of the commands of src/pricewatch/cli.py, one after another, on one state directory and one
-- database.
use pricewatch.Base.{ℕ, Bool, false, none, List, [], ◌∷◌, Text, text_eq}
use pricewatch.Base.Unicode.{Unicode}
use pricewatch.Config.Model.{Config}
use pricewatch.Db.Files.{Migration, FileEntry}
use pricewatch.Db.Connection.{Engine, Database, Conn}
use pricewatch.Accounts.Listing.{ItemRow}
use pricewatch.Accounts.Transaction.{Accounts}
use pricewatch.Session.Stored.{Floats}
use pricewatch.Session.Summary.{Times}
use pricewatch.Session.Crypto.{Fernet}
use pricewatch.Session.Files.{Disk}
use pricewatch.Session.Store.{Codec}
use pricewatch.Commands.Login.{World}
use pricewatch.Commands.Discover.{Tools, Browsing}
use pricewatch.Cli.Database.{init, db_version, db_upgrade, accounts_cmd}
use pricewatch.Cli.Session.{Files, session_status, session_clear}
use pricewatch.Cli.Login.{login}
use pricewatch.Cli.Discover.{discover}

-- What a run finds besides the state: the config, the migration files of the build, the clock, the
-- bytes that a new key would have, and whether another process holds the database's write lock.
pub record Surroundings : Type 0 where
  pub config : Config
  pub shipped : List FileEntry
  pub now : Migration → Text
  pub synced_at : Text
  pub generated : List ℕ
  pub locked : Bool

-- What the commands share.
pub record State (E : Engine) : Type 0 where
  pub files : Files
  pub captures : Disk
  pub database : Database E

-- A command with its arguments, and with what the operator, the browser and the adapter answer. A
-- `discover` here has no `--out`: with it, the operator may name any file, also one of the state.
pub data Command (fl : Floats) : Type 0 where
  init_run db_version_run db_upgrade_run accounts_run : Command fl
  status_run : (times : Times fl) (moment : fl.F) (name : Text) → Command fl
  clear_run : (agreed confirmed : Bool) (name : Text) → Command fl
  login_run :
      (path_of : Text → Text) (w : World fl) (holder : Text) (headless : Bool) (name : Text)
      → Command fl
  discover_run : (captures_dir : Text) (w : Browsing) (holder name : Text) → Command fl

-- Whether a command is one that is to change the stored session of an account.
unfoldable pub touches : {fl : Floats} → Text → Command fl → Bool
touches account (clear_run agreed confirmed name) = text_eq name account
touches account (login_run path_of w holder headless name) = text_eq name account
touches account c = false

module _ {fl : Floats} (t : Tools) (f : Fernet) (codec : Codec fl) (E : Engine)
    (sha256 : Text → Text) (u : Unicode) (accounts : Accounts E.Schema)
    (items : E.Schema → List ItemRow) where
  -- `connect`, on the database of the state
  abbrev pub connected : Surroundings → State E → Conn E
  connected g s = record { committed = s.database; pending = none; locked = g.locked }

  -- A run of one command, to its end or until it is stopped while it waits.
  unfoldable pub run : Surroundings → Command fl → State E → State E
  unfolding init db_version db_upgrade accounts_cmd session_status session_clear login discover
  run g init_run s =
      let c = connected g s in
      let (_, c') = init E sha256 u accounts items g.now g.synced_at g.shipped g.config c in
      record s { database = c'.committed }
  run g db_version_run s =
      let (_, c') = db_version E sha256 u g.shipped (connected g s) in
      record s { database = c'.committed }
  run g db_upgrade_run s =
      let (_, c') = db_upgrade E sha256 u g.now g.shipped (connected g s) in
      record s { database = c'.committed }
  run g accounts_run s =
      let c = connected g s in
      let (_, c') = accounts_cmd E sha256 u accounts items g.now g.synced_at g.shipped g.config c in
      record s { database = c'.committed }
  run g (status_run times moment name) s =
      let (_, files) = session_status f codec g.generated times moment name g.config s.files in
      record s { files = files }
  run g (clear_run agreed confirmed name) s =
      let (_, (files, c')) =
        session_clear f codec g.generated E sha256 u accounts g.now g.shipped agreed confirmed name
          g.config s.files (connected g s) in
      record s { files = files; database = c'.committed }
  run g (login_run path_of w holder headless name) s =
      let (_, (files, c')) =
        login f codec g.generated E sha256 u accounts g.now g.shipped path_of w holder headless name
          g.config s.files (connected g s) in
      record s { files = files; database = c'.committed }
  run g (discover_run captures_dir w holder name) s =
      let (_, (files, captures)) =
        discover t f g.generated captures_dir none w holder name g.config s.files s.captures in
      record s { files = files; captures = captures }

  unfoldable pub run_all : List (Surroundings × Command fl) → State E → State E
  unfolding run
  run_all [] s = s
  run_all ((g, c) ∷ rest) s = run_all rest (run g c s)
