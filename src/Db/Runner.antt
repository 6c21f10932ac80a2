-- ===== src/Db/Runner.antt =====
-- The migration runner of src/pricewatch/db/__init__.py: `_applied`, `current_version`, `migrate`,
-- `_apply` and `open_database`. SHA-256 and SQLite are parameters.
use pricewatch.Base.{
  ℕ, zero, suc, Bool, true, false, ◌&&◌, ◌||◌, not, Option, none, some, List, [], ◌∷◌, map, Text,
  any, all, filter, leb, ◌==◌, is_empty, is_some, text_eq, max, if◌then◌else◌,
}
use pricewatch.Base.Unicode.{Unicode, is_digit, is_alnum, in_range}
use pricewatch.Base.Sort.{sort}
use pricewatch.Base.Dict.{Dict, nat_key, insert, lookup}
use pricewatch.Errors.{
  Result, ok, err, modified, orphans, unsafe_metadata, migration_failed, other, ◌>>=◌,
}
use pricewatch.Db.Files.{Migration, FileEntry, load_migrations, versions}
use pricewatch.Db.Connection.{Engine, Row, Database, Conn, rollback, in_transaction, executescript}

-- `_CHECKSUM.match`: `^[0-9a-f]{64}$`, where `$` matches before a final line feed too.
unfoldable pub is_hex : ℕ → Bool
is_hex c = is_digit c || in_range b'a' b'f' c

unfoldable pub hex_end : ℕ → Text → Bool
unfolding is_hex
hex_end zero [] = true
hex_end zero (c ∷ s) = (c == 10) && is_empty s
hex_end (suc n) [] = false
hex_end (suc n) (c ∷ s) = is_hex c && hex_end n s

unfoldable pub is_checksum : Text → Bool
unfolding hex_end
is_checksum = hex_end 64

-- `name.replace("_", "").isalnum()`, of a name that matched `[a-z0-9_]+`.
unfoldable pub is_safe_name : Text → Bool
is_safe_name name =
    let rest = filter (λ c. not (c == b'_')) name in not (is_empty rest) && all is_alnum rest

-- One statement after another: an exception ends the body.
abbrev pub and_then : {S A B : Type 0} → Result A × S → (S → Result B × S) → Result B × S
and_then (ok a, s) k = k s
and_then (err e, s) k = (err e, s)

abbrev pub returning : {S A B : Type 0} → B → Result A × S → Result B × S
returning b (ok a, s) = (ok b, s)
returning b (err e, s) = (err e, s)

-- The rows as the dict from versions to names and checksums, filled row by row.
unfoldable pub add_rows : Dict ℕ (Text × Text) → List Row → Dict ℕ (Text × Text)
unfolding insert
add_rows d [] = d
add_rows d (r ∷ rs) = add_rows (insert r.version (r.name, r.checksum) d) rs

-- `m.version in applied`
unfoldable pub is_applied : Dict ℕ (Text × Text) → Migration → Bool
unfolding lookup
is_applied applied m = is_some (lookup m.version applied)

-- `sorted(set(applied) - {m.version for m in available})`
unfoldable pub orphans_of : Dict ℕ (Text × Text) → List Migration → List ℕ
unfolding sort
orphans_of applied available =
    sort leb
      (filter (λ v. not (any (λ w. w == v) (versions available))) (map (λ (v, _). v) applied))

-- `COALESCE(MAX(version), 0)`
unfoldable pub max_version : List Row → ℕ
max_version [] = 0
max_version (r ∷ rs) = max r.version (max_version rs)

abbrev pub rows_or_empty : Option (List Row) → List Row
rows_or_empty none = []
rows_or_empty (some rows) = rows

module _ (E : Engine) where
  -- What a statement of this connection sees.
  abbrev pub visible : Conn E → Database E
  visible c = elim c.pending [ none ↦ c.committed | some d ↦ d ]

  -- A write of one statement: into the open transaction, or committed by itself.
  abbrev pub write : Database E → Conn E → Conn E
  write d c =
      if in_transaction E c then record c { pending = some d } else record c { committed = d }

  -- `CREATE TABLE IF NOT EXISTS schema_migrations`, which needs the write lock to create it.
  unfoldable pub ensure_table : Conn E → Result (Unit {0}) × Conn E
  ensure_table c =
      if is_some (visible c).recorded
      then (ok tt, c)
      else if c.locked
      then (err other, c)
      else (ok tt, write (record (visible c) { recorded = some [] }) c)

  -- The SELECT of all rows.
  unfoldable pub rows : Conn E → List Row
  rows c = rows_or_empty (visible c).recorded

  unfoldable pub current_version : Conn E → Result ℕ × Conn E
  unfolding ensure_table rows max_version
  current_version c = let (r, c') = ensure_table c in (r >>= λ _. ok (max_version (rows c')), c')

module _ (E : Engine) (sha256 : Text → Text) where
  -- `Migration.checksum`
  unfoldable pub checksum : Migration → Text
  checksum m = sha256 m.sql

  -- The bookkeeping row.
  unfoldable pub row_of : Text → Migration → Row
  unfolding checksum
  row_of now m = record {
    version = m.version;
    name = m.name;
    checksum = checksum m;
    applied_at = now;
  }

  -- The `except` of `_apply`.
  unfoldable pub settle : Migration → Conn E × Bool → Result (Unit {0}) × Conn E
  unfolding rollback
  settle m (c, true) = (ok tt, c)
  settle m (c, false) =
      (err (migration_failed m.version), if in_transaction E c then rollback E c else c)

  unfoldable pub apply : Text → Migration → Conn E → Result (Unit {0}) × Conn E
  unfolding is_checksum is_safe_name row_of settle executescript
  apply now m c =
      if not (is_checksum (checksum m)) || not (is_safe_name m.name)
      then (err (unsafe_metadata m.name), c)
      else settle m (executescript E m.sql (row_of now m) c)

  -- The first loop of `migrate`: the version of the first migration whose record has another
  -- checksum.
  unfoldable pub find_modified : Dict ℕ (Text × Text) → List Migration → Option ℕ
  unfolding checksum lookup
  find_modified applied [] = none
  find_modified applied (m ∷ ms) =
      let rest = find_modified applied ms in
      elim (lookup m.version applied) [
        | none ↦ rest
        | some (_, recorded) ↦ if text_eq recorded (checksum m) then rest else some m.version
      ]

  -- The last loop of `migrate`. The clock is read at each migration.
  unfoldable pub apply_all :
      (Migration → Text) → List Migration → Conn E → Result (Unit {0}) × Conn E
  apply_all now [] c = (ok tt, c)
  apply_all now (m ∷ ms) c = and_then (apply (now m) m c) (apply_all now ms)

  -- `migrate` behind the load: the two checks, and the loop over what is pending.
  unfoldable pub migrate_to :
      (Migration → Text) → List Migration → Conn E → Result (List Migration) × Conn E
  migrate_to now available c =
      let applied = add_rows [] (rows E c) in
      elim (find_modified applied available) [
        | some v ↦ (err (modified v), c)
        | none ↦
            if not (is_empty (orphans_of applied available))
            then (err (orphans (orphans_of applied available)), c)
            else let pending = filter (λ m. not (is_applied applied m)) available in
              returning pending (apply_all now pending c)
      ]

  unfoldable pub migrate :
      Unicode → (Migration → Text) → List FileEntry → Conn E → Result (List Migration) × Conn E
  migrate u now fs c = and_then (ensure_table E c) (λ c'. elim (load_migrations u fs) [
    | err e ↦ (err e, c')
    | ok available ↦ migrate_to now available c'
  ])

  -- `open_database`, on the connection that `connect` returns.
  unfoldable pub open_database :
      Unicode → (Migration → Text) → List FileEntry → Bool → Conn E → Result (Unit {0}) × Conn E
  unfolding migrate
  open_database u now fs migrate_to_latest c =
      let migrated = migrate u now fs c in
      if migrate_to_latest then and_then migrated (λ c'. (ok tt, c')) else (ok tt, c)
