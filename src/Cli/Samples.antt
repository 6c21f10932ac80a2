-- ===== src/Cli/Samples.antt =====
-- A small database, config and set of files, for the commands of src/pricewatch/cli.py.
use pricewatch.Base.{
  ℕ, zero, suc, ◌≡◌, refl, true, false, ◌+◌, none, some, List, [], ◌∷◌, Text, codes, text_eq,
}
use pricewatch.Base.Int.{pos}
use pricewatch.Base.Sort
use pricewatch.Base.Unicode.{ascii}
use pricewatch.Errors.{Error, ok}
use pricewatch.Config.Secret.{SecretValue, Environment}
use pricewatch.Config.Model.{
  AccountConfig, asos, info, telegram, discord, Config, account, find_account,
}
use pricewatch.Db.Runner
use pricewatch.Db.Runner.{migrate, rows, visible}
use pricewatch.Db.Files.{
  Migration, FileEntry, load_migrations, match_filename, scan, has_duplicates,
}
use pricewatch.Db.Connection.{Engine, Conn}
use pricewatch.Accounts.Table.{Table}
use pricewatch.Accounts.Transaction.{Accounts}
use pricewatch.Session.Samples.{prefix_fernet, crypto}
use pricewatch.Session.Crypto.{KeyPlace, load_or_create}
use pricewatch.Session.Files.{session_name}
use pricewatch.Session.Store.{profile_path}
use pricewatch.Session.Tree.{dir}
use pricewatch.Cli.Output.{finished}
use pricewatch.Cli.Database.{db_upgrade, init}
use pricewatch.Cli.Session.{Files}
use pricewatch.Session.Samples.{whole_floats, fresh_cookie, shop}
use pricewatch.Session.Lock.{taken}
use pricewatch.Commands.Login.{World}

-- A schema is the table of accounts and how many scripts have run.
abbrev pub engine : Engine
engine = record { Schema = Table × ℕ; exec = λ sql s. ((s.0, s.1 + 1), true); commits = λ s. true }

abbrev pub whole : Accounts (Table × ℕ)
whole = record { read = λ s. s.0; write = λ t s. (t, s.1); refuses = λ t s. false }

abbrev pub digits : ℕ → Text
digits zero = []
digits (suc n) = b'0' ∷ digits n

abbrev pub sha : Text → Text
sha t = digits 64

abbrev pub now : Migration → Text
now m = codes "2026-01-01T00:00:00.000+00:00"

abbrev pub files : List FileEntry
files = record { name = codes "001_initial.sql"; text = codes "CREATE" } ∷ []

abbrev pub shipped : List Migration
shipped = record { version = 1; name = codes "initial"; sql = codes "CREATE" } ∷ []

abbrev pub empty_conn : Conn engine
empty_conn = record {
  committed = record { schema = ([], 0); recorded = none };
  pending = none;
  locked = false;
}

pub load_files : load_migrations ascii files ≡ ok shipped
unfolding load_migrations scan has_duplicates Sort.sort match_filename
load_files = refl

abbrev pub asos_uk : AccountConfig
asos_uk = record { name = codes "asos-uk"; site = asos; enabled = true; home_url = none }

abbrev pub literal : SecretValue
literal = record { value = some (codes "t"); env = none }

abbrev pub from_env : SecretValue
from_env = record { value = none; env = some (codes "HOOK") }

abbrev pub config : Config
config = record {
  general = record {
    poll_interval_minutes = pos 60;
    jitter_minutes = pos 5;
    state_dir = codes "/state";
    db_path = none;
    log_level = info;
    max_consecutive_failures = pos 3;
    raw_response_retention = pos 10;
  };
  accounts = asos_uk ∷ [];
  triggers = record {
    any_drop = true;
    percent_off = some (pos 10);
    target_price = false;
    lowest_ever = false;
    back_in_stock = false;
    back_in_stock_max_lookups = pos 5;
  };
  notifiers =
      record { name = codes "phone"; enabled = true; kind = telegram literal (codes "1") }
      ∷ record { name = codes "chat"; enabled = true; kind = discord from_env }
      ∷ [];
}

abbrev pub nothing_set : Environment
nothing_set name = none

abbrev pub message : Error → Text
message e = codes "unset"

pub upgrade_ends : ((db_upgrade engine sha ascii now files empty_conn).0).ending ≡ finished
unfolding db_upgrade Runner.ensure_table load_migrations scan has_duplicates Sort.sort
    Runner.migrate_to Runner.find_modified Runner.add_rows rows Runner.orphans_of Runner.apply_all
    Runner.is_applied Runner.apply
upgrade_ends = refl

pub init_ends :
    ((init engine sha ascii whole (λ s. []) now (codes "t1") files config empty_conn).0).ending
    ≡ finished
unfolding init Runner.ensure_table load_migrations scan has_duplicates Sort.sort Runner.migrate_to
    Runner.find_modified Runner.add_rows rows Runner.orphans_of Runner.apply_all Runner.is_applied
    Runner.apply
init_ends = refl

abbrev pub keys : KeyPlace
keys = record { env = none; key_file = some (record { mode = 384; content = codes "k" }) }

abbrev pub state : Files
state = record {
  keys = keys;
  disk = (session_name (codes "asos-uk"), record { mode = 384; content = 1 ∷ [] }) ∷ [];
  tree = record { path = profile_path (codes "asos-uk"); kind = dir } ∷ [];
}

pub configured : account config (codes "asos-uk") ≡ ok asos_uk
unfolding account text_eq find_account
configured = refl

pub opens : load_or_create prefix_fernet (codes "made") keys ≡ (ok crypto, keys)
unfolding load_or_create
opens = refl

abbrev pub world : World whole_floats
world = record {
  has_adapter = true;
  attempts = record { outcome = taken; clock = 1 } ∷ [];
  deadline = 2;
  page = ok tt;
  probes = record { answer = ok (some (codes "cust-7")); clock = 2 } ∷ [];
  probe_deadline = 5;
  confirmed = false;
  exported = ok (fresh_cookie ∷ [], shop ∷ []);
  nonce = 4;
  saved_at = codes "2026-01-01";
  captured_at = codes "2026-01-02";
  updated = ok tt;
}
