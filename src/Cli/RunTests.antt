-- ===== src/Cli/RunTests.antt =====
-- The theorems on runs of commands, at a small database, config and set of files.

use pricewatch.Base.{All, ◌≡◌, refl, true, false, some, List, [], ◌∷◌, ◌++◌, codes, text_eq}
use pricewatch.Base.Sort
use pricewatch.Base.Unicode.{ascii}
use pricewatch.Errors.{ok}
use pricewatch.Config.Model.{account, find_account}
use pricewatch.Capture.Recorder.{malformed}
use pricewatch.Db.Connection.{Row}
use pricewatch.Db.Files.{
  Migration, FileEntry, match_filename, scan, has_duplicates, load_migrations,
}
use pricewatch.Db.Runner
use pricewatch.Db.Runner.{rows}
use pricewatch.Db.Advances.{KeepsRun, KeepsShipped}
use pricewatch.Db.Built.{Distinct, ledger}
use pricewatch.Accounts.Table.{new_row}
use pricewatch.Session.Crypto.{load_or_create}
use pricewatch.Session.Stored.{StoredSession, is_probably_stale}
use pricewatch.Session.Summary.{Times, summary}
use pricewatch.Session.Store.{load}
use pricewatch.Session.Samples.{
  whole_floats, prefix_fernet, prefix_fernet-IsFernet, codec, codec-IsCodec, crypto,
}
use pricewatch.Commands.Discover.{Tools}
use pricewatch.Cli.Output.{finished}
use pricewatch.Cli.Login.{login}
use pricewatch.Cli.Session.{session_status, session_lines}
use pricewatch.Cli.Kept.{UniqueIn}
use pricewatch.Cli.Runs.{
  Surroundings, State, Command, init_run, db_version_run, db_upgrade_run, status_run, clear_run,
  login_run, accounts_run, touches, connected, run, run_all,
}
use pricewatch.Cli.RunsKept.{run_all-Keeps}
use pricewatch.Cli.RunsSpared.{AlwaysOpens, run_all-spares}
use pricewatch.Cli.Lasting.{ending_of, login-lasts}
use pricewatch.Cli.Samples.{
  engine, whole, sha, now, asos_uk, config, keys, state, configured, world,
}

abbrev tools : Tools
tools = record {
  unicode = ascii;
  decoder = record { decode = λ bs. bs; loads = λ t. malformed; dumps = λ v. codes "null" };
  encode = λ t. t;
  urlsplit = λ t. some (codes "x.test", t);
}

abbrev two_files : List FileEntry
two_files =
    record { name = codes "001_initial.sql"; text = codes "CREATE" }
    ∷ record { name = codes "002_more.sql"; text = codes "ALTER" }
    ∷ []

abbrev two : List Migration
two =
    record { version = 1; name = codes "initial"; sql = codes "CREATE" }
    ∷ record { version = 2; name = codes "more"; sql = codes "ALTER" }
    ∷ []

load_two : load_migrations ascii two_files ≡ ok two
unfolding load_migrations scan has_duplicates Sort.sort match_filename
load_two = refl

abbrev surroundings : Surroundings
surroundings = record {
  config = config;
  shipped = two_files;
  now = now;
  synced_at = codes "2026-01-01";
  generated = codes "made";
  locked = false;
}

abbrev start : State engine
start = record {
  files = state;
  captures = [];
  database = record {
    schema = (new_row (codes "2026-01-01") 1 asos_uk ∷ [], 0);
    recorded =
        some
          (record { version = 1; name = codes "initial"; checksum = sha []; applied_at = [] } ∷ []);
  };
}

abbrev times : Times whole_floats
times = record { to_seconds = λ t. t; from_timestamp = λ n. codes "then" }

abbrev asos_login : Command whole_floats
asos_login = login_run (λ t. t) world (codes "daemon") true (codes "asos-uk")

abbrev runs : List (Surroundings × Command whole_floats)
runs =
    (surroundings, init_run)
    ∷ (surroundings, asos_login)
    ∷ (surroundings, status_run times 3 (codes "asos-uk"))
    ∷ (surroundings, clear_run true false (codes "asos-uk"))
    ∷ (surroundings, db_version_run)
    ∷ []

-- The scripts of the samples leave the table as it is.
all-KeepsRun : (ms : List Migration) → All (KeepsRun engine sha (UniqueIn engine sha whole)) ms
all-KeepsRun [] = tt
all-KeepsRun (m ∷ ms) = (λ s e h. h, all-KeepsRun ms)

all_keep : KeepsShipped engine sha (UniqueIn engine sha whole) ascii two_files
all_keep available e = all-KeepsRun available

run_all-Keeps_example :
    let d =
      (run_all tools prefix_fernet codec engine sha ascii whole (λ s. []) runs start).database in
    ((added : List Row) × (ledger engine sha d ≡ ledger engine sha start.database ++ added))
    × Distinct (ledger engine sha d)
    × UniqueIn engine sha whole d.schema
run_all-Keeps_example =
    run_all-Keeps tools prefix_fernet codec engine sha ascii whole (λ s. []) (λ t s. refl) runs
      start (all_keep, (all_keep, (all_keep, (all_keep, (all_keep, tt))))) (refl, tt) (tt, tt)

always_opens : AlwaysOpens prefix_fernet crypto keys
unfolding load_or_create
always_opens generated = refl

run_all-spares_example :
    let after =
      (run_all tools prefix_fernet codec engine sha ascii whole (λ s. []) runs start).files in
    (after.keys ≡ start.files.keys)
    × (load prefix_fernet codec crypto (codes "fp") after.disk
        ≡ load prefix_fernet codec crypto (codes "fp") start.files.disk)
unfolding touches text_eq
run_all-spares_example =
    run_all-spares tools prefix_fernet codec engine sha ascii whole (λ s. []) crypto (codes "fp")
      prefix_fernet-IsFernet codec-IsCodec runs start (refl, (refl, (refl, (refl, (refl, tt)))))
      always_opens

login_ends :
    ending_of (
      (login prefix_fernet codec
        (codes "made")
        engine
        sha
        ascii
        whole
        now
        two_files
        (λ t. t)
        world
        (codes "daemon")
        true
        (codes "asos-uk")
        config
        state
        (connected tools prefix_fernet codec engine sha ascii whole
          (λ s. [])
          surroundings
          start)).0)
    ≡ some finished
unfolding login Runner.ensure_table load_migrations scan has_duplicates Sort.sort Runner.migrate_to
    Runner.find_modified Runner.add_rows rows Runner.orphans_of Runner.apply_all Runner.is_applied
    Runner.apply match_filename text_eq find_account account
login_ends = refl

-- Commands that leave the session of `asos-uk`.
abbrev quiet_runs : List (Surroundings × Command whole_floats)
quiet_runs =
    (surroundings, accounts_run)
    ∷ (surroundings, clear_run true false (codes "fp"))
    ∷ (surroundings, db_upgrade_run)
    ∷ []

login-lasts_example :
    let first =
      run tools prefix_fernet codec engine sha ascii whole
        (λ s. [])
        surroundings
        asos_login
        start in
    let files =
      (run_all tools prefix_fernet codec engine sha ascii whole (λ s. []) quiet_runs first).files in
    (kept : StoredSession whole_floats) × (load prefix_fernet codec crypto
        (codes "asos-uk")
        files.disk
      ≡ ok kept)
    × ((session_status prefix_fernet codec (codes "made") times 3 (codes "asos-uk") config files).0
        ≡ record {
          lines =
              session_lines
                (codes "asos-uk")
                (summary times kept)
                (is_probably_stale whole_floats 3 kept);
          ending = finished;
        })
unfolding touches text_eq
login-lasts_example =
    login-lasts tools prefix_fernet codec engine sha ascii whole (λ s. []) crypto (codes "asos-uk")
      prefix_fernet-IsFernet codec-IsCodec (λ t s. refl) surroundings surroundings (λ t. t) world
      (codes "daemon") true times 3 asos_uk asos_uk two quiet_runs start configured configured
      always_opens load_two login_ends (refl, (refl, (refl, tt)))
