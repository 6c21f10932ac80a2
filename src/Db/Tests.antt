-- ===== src/Db/Tests.antt =====
-- Runs of the migration code on small databases, and the theorems at concrete inputs.
use pricewatch.Base.{
  ℕ, zero, suc, Bool, ◌==◌, ◌+◌, ◌%◌, ◌≡◌, refl, ◌≢◌, true, false, none, some, List, [], ◌∷◌, Text,
  codes, arith, ap, length, if◌then◌else◌,
}
use pricewatch.Base.Unicode.{ascii}
use pricewatch.Base.Sort
use pricewatch.Db.Runner
use pricewatch.Errors.{ok, err, modified, migration_failed, unsafe_metadata, bad_filename}
use pricewatch.Base.Dict.{lookup, nat_key}
use pricewatch.Db.Files.{
  Migration, FileEntry, load_migrations, match_filename, scan, has_duplicates,
}
use pricewatch.Db.Connection.{Engine, Row, Conn}
use pricewatch.Db.Runner.{
  migrate, migrate_to, apply, apply_all, ensure_table, current_version, rows, find_modified,
  checksum,
}
use pricewatch.Db.Recorded.{applied_of}
use pricewatch.Db.Complete.{IsComplete}
use pricewatch.Db.Atomic.{Lands, apply-Lands}
use pricewatch.Db.Progress.{Prefix, apply_all-Prefix}
use pricewatch.Db.Migrate.{migrate-IsComplete, migrate-again}
use pricewatch.Db.Refusal.{Holds, HasRow, migrate_to_refuses_edit}

-- A schema is the texts run so far. A text that begins with `x` fails after it has had an effect.
abbrev run : Text → List Text → List Text × Bool
run [] s = (s, true)
run (c ∷ t) s = ((c ∷ t) ∷ s, if c == b'x' then false else true)

abbrev pub engine : Engine
engine = record { Schema = List Text; exec = run; commits = λ s. true }

-- 64 hexadecimal digits that depend on the length of the text.
abbrev digits : ℕ → ℕ → Text
digits zero d = []
digits (suc n) d = d ∷ digits n d

abbrev pub sha : Text → Text
sha t = digits 64 (48 + length t % 10)

abbrev later_time : Migration → Text
later_time m = codes "2026-01-02T00:00:00.000+00:00"

abbrev pub now : Migration → Text
now m = codes "2026-01-01T00:00:00.000+00:00"

abbrev first_file : FileEntry
first_file = record { name = codes "001_initial.sql"; text = codes "CREATE" }

abbrev second_file : FileEntry
second_file = record { name = codes "002_session_state.sql"; text = codes "ALTER" }

abbrev broken_file : FileEntry
broken_file = record { name = codes "003_broken.sql"; text = codes "xBAD" }

abbrev files : List FileEntry
files = second_file ∷ record { name = codes "__init__.py"; text = [] } ∷ first_file ∷ []

abbrev initial : Migration
initial = record { version = 1; name = codes "initial"; sql = codes "CREATE" }

abbrev pub session_state : Migration
session_state = record { version = 2; name = codes "session_state"; sql = codes "ALTER" }

abbrev broken : Migration
broken = record { version = 3; name = codes "broken"; sql = codes "xBAD" }

abbrev pub shipped : List Migration
shipped = initial ∷ session_state ∷ []

abbrev empty_conn : Conn engine
empty_conn = record {
  committed = record { schema = []; recorded = none };
  pending = none;
  locked = false;
}

abbrev row : Migration → Row
row m = record { version = m.version; name = m.name; checksum = sha m.sql; applied_at = now m }

abbrev full_conn : Conn engine
full_conn = record {
  committed = record {
    schema = codes "ALTER" ∷ codes "CREATE" ∷ [];
    recorded = some (row initial ∷ row session_state ∷ []);
  };
  pending = none;
  locked = false;
}

abbrev table_conn : Conn engine
table_conn = record {
  committed = record { schema = []; recorded = some [] };
  pending = none;
  locked = false;
}

load_files : load_migrations ascii files ≡ ok shipped
unfolding load_migrations scan has_duplicates Sort.sort match_filename
load_files = refl

migrate-files : migrate engine sha ascii now files empty_conn ≡ (ok shipped, full_conn)
unfolding migrate ensure_table migrate_to load_migrations scan has_duplicates Sort.sort
    match_filename Runner.add_rows Runner.orphans_of Runner.is_applied find_modified apply_all apply
    rows
migrate-files = refl

-- A file name that is not of the right shape stops the load.
bad_name :
    load_migrations ascii (record { name = codes "1_initial.sql"; text = [] } ∷ [])
    ≡ err (bad_filename (codes "1_initial.sql"))
unfolding load_migrations scan match_filename
bad_name = refl

-- A name of underscores alone is loaded, and refused when it is applied.
underscores :
    (match_filename ascii (codes "004___.sql") ≡ some (4, codes "__"))
    × (apply engine sha
          (now initial)
          (record { version = 4; name = codes "__"; sql = [] })
          table_conn
        ≡ (err (unsafe_metadata (codes "__")), table_conn))
unfolding match_filename apply
underscores = (refl, refl)

-- The migration that fails leaves the two before it applied.
stops_at_broken :
    apply_all engine sha now (initial ∷ session_state ∷ broken ∷ []) table_conn
    ≡ (err (migration_failed 3), full_conn)
unfolding apply_all apply rows
stops_at_broken = refl

apply-Lands_example :
    Lands engine sha (now broken) broken full_conn (apply engine sha (now broken) broken full_conn)
apply-Lands_example = apply-Lands engine sha (now broken) broken full_conn refl

apply_all-Prefix_example :
    Prefix engine sha now
      (initial ∷ broken ∷ [])
      table_conn
      (apply_all engine sha now (initial ∷ broken ∷ []) table_conn)
apply_all-Prefix_example = apply_all-Prefix engine sha now (initial ∷ broken ∷ []) table_conn refl

migrate-IsComplete_example : IsComplete engine sha shipped full_conn
migrate-IsComplete_example =
    migrate-IsComplete engine sha ascii files now shipped empty_conn full_conn load_files refl
      migrate-files

migrate-again_example : migrate engine sha ascii later_time files full_conn ≡ (ok [], full_conn)
migrate-again_example =
    migrate-again engine sha ascii files now later_time shipped empty_conn full_conn load_files refl
      migrate-files

abbrev edited : Migration
edited = record initial { sql = codes "CREATED" }

recorded_initial :
    lookup 1 (applied_of (rows engine full_conn)) ≡ some (codes "initial", sha (codes "CREATE"))
unfolding lookup Runner.add_rows rows
recorded_initial = refl

abbrev first_code : Text → ℕ
first_code [] = 0
first_code (c ∷ t) = c

edited_checksum : sha (codes "CREATE") ≢ checksum engine sha edited
unfolding checksum
edited_checksum e = omega (arith, ap first_code e)

migrate_to_refuses_edit_example :
    (v : ℕ) × (migrate_to engine sha now (edited ∷ []) full_conn ≡ (err (modified v), full_conn))
migrate_to_refuses_edit_example =
    migrate_to_refuses_edit engine sha now (edited ∷ []) full_conn edited (codes "initial")
      (sha (codes "CREATE")) Holds.here recorded_initial edited_checksum

has_second : HasRow 2 (rows engine full_conn)
unfolding rows
has_second = HasRow.behind (HasRow.first (row session_state) refl)
