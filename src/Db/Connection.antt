-- ===== src/Db/Connection.antt =====
-- A connection of src/pricewatch/db/__init__.py: `connect` with `isolation_level=None`,
-- `transaction` and the way `executescript` runs a script of its own transaction.
-- SQLite is a parameter: what one migration's SQL makes of a schema, and whether a COMMIT is
-- granted. A migration's SQL holds no transaction statement and leaves `schema_migrations` alone.
use pricewatch.Base.{
  ℕ, Bool, true, false, ◌||◌, Option, none, some, List, [], ◌∷◌, ◌++◌, Text, any, ◌==◌, is_some,
  if◌then◌else◌,
}
use pricewatch.Errors.{Error, Result, ok, err}

-- What SQLite does with the text of a migration: the schema it reaches, and whether it got to the
-- end. A statement that fails leaves the effects of those before it in the open transaction.
pub record Engine : Type 1 where
  pub Schema : Type 0
  pub exec : Text → Schema → Schema × Bool
  -- whether a COMMIT of this schema is granted
  pub commits : Schema → Bool

pub data Pragma : Type 0 where
  journal_mode_wal foreign_keys_on synchronous_normal : Pragma
  -- in milliseconds
  busy_timeout : ℕ → Pragma

-- What `connect` does, call by call.
pub data Opening : Type 0 where
  -- `mkdir(parents=True, exist_ok=True)`
  make_directory : Text → Opening
  -- `sqlite3.connect(path, isolation_level=None)`
  open_file : Text → Opening
  execute : Pragma → Opening

-- `connect`, of a file in a directory.
unfoldable pub connect : (parent path : Text) → List Opening
connect parent path =
    make_directory parent
    ∷ open_file path
    ∷ execute journal_mode_wal
    ∷ execute foreign_keys_on
    ∷ execute (busy_timeout 5000)
    ∷ execute synchronous_normal
    ∷ []

-- A row of `schema_migrations`.
pub record Row : Type 0 where
  pub version : ℕ
  pub name : Text
  pub checksum : Text
  pub applied_at : Text

module _ (E : Engine) where
  open E use {Schema, exec, commits}

  pub record Database : Type 0 where
    pub schema : Schema
    -- `none` until `schema_migrations` has been created
    pub recorded : Option (List Row)

  pub record Conn : Type 0 where
    pub committed : Database
    -- the state inside a transaction that is open
    pub pending : Option Database
    -- another connection holds the write lock for longer than the busy timeout
    pub locked : Bool

  -- `conn.in_transaction`
  abbrev pub in_transaction : Conn → Bool
  in_transaction c = is_some c.pending

  abbrev or_committed : Database → Option Database → Database
  or_committed d none = d
  or_committed d (some p) = p

  -- `COMMIT` of whatever is open
  unfoldable pub commit : Conn → Conn
  commit c = record c { committed = or_committed c.committed c.pending; pending = none }

  -- `ROLLBACK`
  unfoldable pub rollback : Conn → Conn
  rollback c = record c { pending = none }

  -- The INSERT of the bookkeeping row: it fails where the table is missing or the primary key
  -- `version` is taken.
  unfoldable pub insert_row : Row → Database → Option Database
  insert_row r d = elim d.recorded [
    | none ↦ none
    | some rows ↦
        if any (λ q. q.version == r.version) rows
        then none
        else some (record d { recorded = some (rows ++ r ∷ []) })
  ]

  -- `executescript("BEGIN IMMEDIATE;\n{sql}\n{bookkeeping}\nCOMMIT;")`: it commits what is open,
  -- and stops at the first statement that fails. The Boolean says whether it got to the end.
  unfoldable pub executescript : Text → Row → Conn → Conn × Bool
  unfolding commit insert_row
  executescript sql r c =
      let c' = commit c in
      if c'.locked
      then (c', false)
      else let (s, done) = exec sql c'.committed.schema in
        let d : Database = record { schema = s; recorded = c'.committed.recorded } in
        if done
        then elim (insert_row r d) [
          | none ↦ (record c' { pending = some d }, false)
          | some d' ↦
              if commits s
              then (record c' { committed = d' }, true)
              else (record c' { pending = some d' }, false)
        ]
        else (record c' { pending = some d }, false)

  -- The end of a `transaction` block: `ROLLBACK` on an exception, and else the COMMIT, which
  -- stands behind the `try` and leaves the transaction open where it fails.
  unfoldable pub finish_transaction {ℓ} :
      {A : Type ℓ} → Error → Conn → Result A → Database → Result A × Conn
  unfolding rollback
  finish_transaction busy c (err e) d = (err e, rollback (record c { pending = some d }))
  finish_transaction busy c (ok a) d =
      if commits d.schema
      then (ok a, record c { committed = d; pending = none })
      else (err busy, record c { pending = some d })

  -- `transaction`: a block inside one transaction. `BEGIN IMMEDIATE` fails where the lock is held
  -- or a transaction is open, and nothing is rolled back then.
  unfoldable pub transaction {ℓ} :
      {A : Type ℓ} → Error → (Database → Result A × Database) → Conn → Result A × Conn
  unfolding finish_transaction
  transaction busy block c =
      let (r, d) = block c.committed in
      if c.locked || in_transaction c then (err busy, c) else finish_transaction busy c r d
