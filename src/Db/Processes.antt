-- ===== src/Db/Processes.antt =====
-- Several processes that run `migrate` of src/pricewatch/db/__init__.py on one database, each
-- statement and each script between those of the others.
use pricewatch.Base.{
  ◌≡◌, Bool, not, none, some, List, [], ◌∷◌, ◌++◌, Text, filter, is_empty, if◌then◌else◌, arith,
}
use pricewatch.Errors.{Error, Result, ok, err, modified, orphans}
use pricewatch.Db.Files.{Migration}
use pricewatch.Db.Connection.{Engine, Row, Database, Conn}
use pricewatch.Db.Runner.{
  add_rows, rows, ensure_table, find_modified, orphans_of, is_applied, apply, apply_all, migrate_to,
  returning,
}
use pricewatch.Db.Atomic.{closed_conn}

-- How far a process has come; it holds the migrations that it has loaded.
pub data Process : Type 0 where
  starting : (available : List Migration) → Process
  -- behind the CREATE TABLE
  created : (available : List Migration) → Process
  working : (available pending : List Migration) → Process
  returned : (available : List Migration) → Process
  raised : Error → Process

module _ (E : Engine) (sha256 : Text → Text) where
  -- What `migrate` has to apply, once it has read the rows: the two checks, and the filter.
  unfoldable pub plan : List Migration → List Row → Result (List Migration)
  unfolding find_modified orphans_of is_applied add_rows
  plan available rs =
      let applied = add_rows [] rs in
      elim (find_modified E sha256 applied available) [
        | some v ↦ err (modified v)
        | none ↦
            if not (is_empty (orphans_of applied available))
            then err (orphans (orphans_of applied available))
            else ok (filter (λ m. not (is_applied applied m)) available)
      ]

  abbrev pub run_plan :
      (Migration → Text) → Conn E → Result (List Migration) → Result (List Migration) × Conn E
  run_plan now c (err e) = (err e, c)
  run_plan now c (ok pending) = returning pending (apply_all E sha256 now pending c)

  -- `migrate` is its plan, and then the loop over it.
  pub migrate_to-plan :
      (now : Migration → Text) (available : List Migration) (c : Conn E)
      → migrate_to E sha256 now available c ≡ run_plan now c (plan available (rows E c))
  unfolding migrate_to plan
  migrate_to-plan now available c = ground arith

  abbrev pub after_create : List Migration → Result (Unit {0}) → Process
  after_create available (ok _) = created available
  after_create available (err e) = raised e

  abbrev pub after_read : List Migration → Result (List Migration) → Process
  after_read available (ok pending) = working available pending
  after_read available (err e) = raised e

  abbrev pub after_apply : List Migration → List Migration → Result (Unit {0}) → Process
  after_apply available rest (ok _) = working available rest
  after_apply available rest (err e) = raised e

  -- One move of a process: the database and the process after it. The Boolean says whether another
  -- process keeps the write lock for longer than the busy timeout.
  unfoldable pub move : Bool → (Migration → Text) → Database E → Process → Database E × Process
  unfolding ensure_table plan rows apply
  move locked now d (starting available) =
      let (r, c) = ensure_table E (closed_conn E sha256 d locked) in
      (c.committed, after_create available r)
  move locked now d (created available) =
      (d, after_read available (plan available (rows E (closed_conn E sha256 d locked))))
  move locked now d (working available []) = (d, returned available)
  move locked now d (working available (m ∷ rest)) =
      let (r, c) = apply E sha256 (now m) m (closed_conn E sha256 d locked) in
      (c.committed, after_apply available rest r)
  move locked now d (returned available) = (d, returned available)
  move locked now d (raised e) = (d, raised e)

  pub record System : Type 0 where
    pub database : Database E
    pub processes : List Process

  -- A step of the system: one process moves, or ends without notice, or a new one starts.
  pub data Step (s : System) : System → Type 0 where
    moves :
        (before : List Process) (p : Process) (after : List Process) (locked : Bool)
        (now : Migration → Text)
        → s.processes ≡ before ++ (p ∷ after)
        → Step s (record {
          database = (move locked now s.database p).0;
          processes = before ++ ((move locked now s.database p).1 ∷ after);
        })
    dies :
        (before : List Process) (p : Process) (after : List Process)
        → s.processes ≡ before ++ (p ∷ after)
        → Step s (record s { processes = before ++ after })
    starts :
        (available : List Migration)
        → Step s (record s { processes = starting available ∷ s.processes })

  pub data Reach (s : System) : System → Type 0 where
    here : Reach s s
    later : {t u : System} → Reach s t → Step t u → Reach s u
