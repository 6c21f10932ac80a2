-- ===== src/Db/Moved.antt =====
-- What one move of a process that migrates a database of src/pricewatch/db/__init__.py does.
use pricewatch.Base.{
  ℕ, ◌≡◌, refl, Bool, true, false, not, Option, none, some, List, [], ◌∷◌, Text, is_empty, All,
  All-map, if◌then◌else◌, ap, sym, subst,
}
use pricewatch.Errors.{Result, ok, err, modified, orphans, other}
use pricewatch.Db.Files.{Migration}
use pricewatch.Db.Connection.{Engine, Row, Database, Conn}
use pricewatch.Db.Runner.{rows, ensure_table, find_modified, orphans_of, apply}
use pricewatch.Db.Atomic.{Landed, Lands, apply-Lands, closed_conn}
use pricewatch.Db.Recorded.{applied_of, Recorded, Recorded-self, Recorded-step}
use pricewatch.Db.Complete.{All-Recorded, find_modified-none, Unmodified, pending_of}
use pricewatch.Db.Processes.{
  Process, starting, created, working, returned, raised, plan, after_create, after_read,
  after_apply, move,
}
use pricewatch.Db.Built.{ledger, Built, Landed-Built, rows-closed}

module _ (E : Engine) (sha256 : Text → Text) where
  -- What was recorded stays recorded.
  abbrev pub Keeps : List Row → List Row → Type 0
  Keeps rs rs' = (n : Migration) → Recorded E sha256 rs n → Recorded E sha256 rs' n

  -- Once the pending ones are recorded, all are.
  abbrev Remaining : List Row → List Migration → List Migration → Type 0
  Remaining rs available pending =
      (rs' : List Row)
      → Keeps rs rs'
      → All (Recorded E sha256 rs') pending
      → All (Recorded E sha256 rs') available

  -- What a process knows of the rows.
  abbrev pub Knows : List Row → Process → Type 0
  Knows rs (working available pending) = Remaining rs available pending
  Knows rs (returned available) = All (Recorded E sha256 rs) available
  Knows rs p = Unit

  pub Knows-Keeps : (rs rs' : List Row) (p : Process) → Keeps rs rs' → Knows rs p → Knows rs' p
  Knows-Keeps rs rs' (starting ms) k h = tt
  Knows-Keeps rs rs' (created ms) k h = tt
  Knows-Keeps rs rs' (working ms ps) k h = λ rs'' k' q. h rs'' (λ n r. k' n (k n r)) q
  Knows-Keeps rs rs' (returned ms) k h = All-map k ms h
  Knows-Keeps rs rs' (raised e) k h = tt

  -- What one move of a process has done.
  pub record Moved (first : E.Schema) (d d' : Database E) (p : Process) : Type 0 where
    pub built : Built E sha256 first d'
    pub keeps : Keeps (ledger E sha256 d) (ledger E sha256 d')
    pub knows : Knows (ledger E sha256 d') p

  -- A move that leaves the database alone.
  Moved-still :
      (first : E.Schema) (d : Database E) (p : Process)
      → Built E sha256 first d
      → Knows (ledger E sha256 d) p
      → Moved first d d p
  Moved-still first d p b k = record { built = b; keeps = λ n r. r; knows = k }

  plan-Knows :
      (rs : List Row) (available : List Migration)
      → Knows rs (after_read E sha256 available (plan E sha256 available rs))
  unfolding plan
  plan-Knows rs available = go (find_modified E sha256 (applied_of rs) available) refl
    where
      orphaned :
          (b : Bool)
          → All (Unmodified E sha256 (applied_of rs)) available
          → Knows rs (
              after_read E sha256 available (
                if not b
                then err (orphans (orphans_of (applied_of rs) available))
                else ok (pending_of E sha256 (applied_of rs) available)))
      orphaned false u = tt
      orphaned true u = λ rs' k q. All-Recorded E sha256 rs rs' available k u q

      go :
          (o : Option ℕ)
          → find_modified E sha256 (applied_of rs) available ≡ o
          → let r : Result (List Migration) = elim o [
            | some v ↦ err (modified v)
            | none ↦
                if not (is_empty (orphans_of (applied_of rs) available))
                then err (orphans (orphans_of (applied_of rs) available))
                else ok (pending_of E sha256 (applied_of rs) available)
          ] in
            Knows rs (after_read E sha256 available r)
      go (some v) e = tt
      go none e =
          orphaned (is_empty (orphans_of (applied_of rs) available))
            (find_modified-none E sha256 (applied_of rs) available e)

  create-Moved_at :
      (first s : E.Schema) (available : List Migration) (o : Option (List Row)) (l : Bool)
      → Built E sha256 first (record { schema = s; recorded = o })
      → let d : Database E = record { schema = s; recorded = o } in
        let (r, c) = ensure_table E (closed_conn E sha256 d l) in
        Moved first d c.committed (after_create E sha256 available r)
  unfolding ensure_table
  create-Moved_at first s available (some rs) l b =
      Moved-still first (record { schema = s; recorded = some rs }) (created available) b tt
  create-Moved_at first s available none true b =
      Moved-still first (record { schema = s; recorded = none }) (raised other) b tt
  create-Moved_at first s available none false b = record {
    built = record { ran = b.ran; schema = b.schema; recorded = b.recorded; distinct = b.distinct };
    keeps = λ n r. r;
    knows = tt;
  }

  apply-Moved :
      (first : E.Schema) (now : Text) (m : Migration) (available rest : List Migration)
      (d : Database E) (l : Bool)
      → Built E sha256 first d
      → Remaining (ledger E sha256 d) available (m ∷ rest)
      → let (r, c) = apply E sha256 now m (closed_conn E sha256 d l) in
        Moved first d c.committed (after_apply E sha256 available rest r)
  unfolding rows
  apply-Moved first now m available rest d l b k =
      go (apply E sha256 now m (closed_conn E sha256 d l))
        (apply-Lands E sha256 now m (closed_conn E sha256 d l) refl)
    where
      landed :
          (c : Conn E)
          → Landed E sha256 now m (closed_conn E sha256 d l) c
          → (P : List Row → Type 0) → P (rows E c)
          → P (ledger E sha256 c.committed)
      landed c h P q = subst P (rows-closed E sha256 c h.closed) q

      go :
          (x : Result (Unit {0}) × Conn E)
          → Lands E sha256 now m (closed_conn E sha256 d l) x
          → Moved first d (x.1).committed (after_apply E sha256 available rest (x.0))
      go (err e, c) same =
          subst (λ (y : Database E). Moved first d y (raised e))
            (ap (λ (y : Conn E). y.committed) (sym same)) (Moved-still first d (raised e) b tt)
      go (ok _, c) h = record {
        built = Landed-Built E sha256 first now m d l c b h;
        keeps = λ n r.
            landed c h (λ rs. Recorded E sha256 rs n)
              (Recorded-step E sha256 now m n (closed_conn E sha256 d l) c h r);
        knows = λ rs' keep q.
            k rs'
              (λ n r. keep n (
                landed c h (λ rs. Recorded E sha256 rs n)
                  (Recorded-step E sha256 now m n (closed_conn E sha256 d l) c h r)))
              (
                keep m (
                    landed c h (λ rs. Recorded E sha256 rs m)
                      (Recorded-self E sha256 now m (closed_conn E sha256 d l) c h)),
                q,
              );
      }

  pub move-Moved :
      (first : E.Schema) (locked : Bool) (now : Migration → Text) (d : Database E) (p : Process)
      → Built E sha256 first d
      → Knows (ledger E sha256 d) p
      → Moved first d ((move E sha256 locked now d p).0) ((move E sha256 locked now d p).1)
  unfolding move rows
  move-Moved first l now d (starting ms) b k = create-Moved_at first d.schema ms d.recorded l b
  move-Moved first l now d (created ms) b k =
      Moved-still first d _ b (plan-Knows (ledger E sha256 d) ms)
  move-Moved first l now d (working ms []) b k =
      Moved-still first d (returned ms) b (k (ledger E sha256 d) (λ n r. r) tt)
  move-Moved first l now d (working ms (m ∷ rest)) b k = apply-Moved first (now m) m ms rest d l b k
  move-Moved first l now d (returned ms) b k = Moved-still first d (returned ms) b k
  move-Moved first l now d (raised e) b k = Moved-still first d (raised e) b tt
