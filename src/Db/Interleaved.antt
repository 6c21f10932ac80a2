-- ===== src/Db/Interleaved.antt =====
-- What holds of a database of src/pricewatch/db/__init__.py while several processes migrate it.
use pricewatch.Base.{List, ◌∷◌, Text, All, All-map, All-append, subst, All-split}
use pricewatch.Db.Connection.{Engine, Row}
use pricewatch.Db.Recorded.{Recorded}
use pricewatch.Db.Processes.{
  Process, starting, created, working, returned, raised, move, System, Step, moves, dies, starts,
  Reach, here, later,
}
use pricewatch.Db.Built.{ledger, Built}
use pricewatch.Db.Moved.{Knows, Knows-Keeps, move-Moved}

module _ (E : Engine) (sha256 : Text → Text) where
  record IsSound (first : E.Schema) (s : System E sha256) : Type 0 where
    built : Built E sha256 first s.database
    known : All (Knows E sha256 (ledger E sha256 s.database)) s.processes

  Step-IsSound :
      {first : E.Schema} {s t : System E sha256}
      → Step E sha256 s t
      → IsSound first s
      → IsSound first t
  Step-IsSound {first} {s} (moves before p after l now e) h =
      let (left, (at, right)) =
        All-split (Knows E sha256 (ledger E sha256 s.database)) before p after
          (subst (All (Knows E sha256 (ledger E sha256 s.database))) e h.known) in
      let done = move-Moved E sha256 first l now s.database p h.built at in
      let rs' = ledger E sha256 ((move E sha256 l now s.database p).0) in
      let keep = λ (q : Process) (k : Knows E sha256 (ledger E sha256 s.database) q).
        Knows-Keeps E sha256 (ledger E sha256 s.database) rs' q done.keeps k in
      record {
        built = done.built;
        known =
            All-append (Knows E sha256 rs') before (_ ∷ after) (All-map keep before left)
              (done.knows, All-map keep after right);
      }
  Step-IsSound {first} {s} (dies before p after e) h =
      let (left, (at, right)) =
        All-split (Knows E sha256 (ledger E sha256 s.database)) before p after
          (subst (All (Knows E sha256 (ledger E sha256 s.database))) e h.known) in
      record {
        built = h.built;
        known = All-append (Knows E sha256 (ledger E sha256 s.database)) before after left right;
      }
  Step-IsSound (starts available) h = record { built = h.built; known = (tt, h.known) }

  Reach-IsSound :
      {first : E.Schema} {s t : System E sha256}
      → Reach E sha256 s t
      → IsSound first s
      → IsSound first t
  Reach-IsSound here h = h
  Reach-IsSound (later r st) h = Step-IsSound st (Reach-IsSound r h)

  abbrev pub IsStarting : Process → Type 0
  IsStarting (starting available) = Unit
  IsStarting p = ⊥

  -- What a process that has returned may rely on.
  abbrev pub Finished : List Row → Process → Type 0
  Finished rs (returned available) = All (Recorded E sha256 rs) available
  Finished rs p = Unit

  starting-Knows : (rs : List Row) (p : Process) → IsStarting p → Knows E sha256 rs p
  starting-Knows rs (starting ms) h = tt
  starting-Knows rs (created ms) h = elim h [ ]
  starting-Knows rs (working ms ps) h = elim h [ ]
  starting-Knows rs (returned ms) h = elim h [ ]
  starting-Knows rs (raised e) h = elim h [ ]

  Knows-Finished : (rs : List Row) (p : Process) → Knows E sha256 rs p → Finished rs p
  Knows-Finished rs (starting ms) k = tt
  Knows-Finished rs (created ms) k = tt
  Knows-Finished rs (working ms ps) k = tt
  Knows-Finished rs (returned ms) k = k
  Knows-Finished rs (raised e) k = tt

  -- However any number of processes interleave that migrate one database, with whatever migrations
  -- each has loaded, and whichever of them die: the schema is always what the recorded scripts make
  -- of the first one, each run once and to its end, in the order of the rows; no version stands
  -- twice; and for a process that has returned, each migration that it loaded is recorded with its
  -- checksum. At the start the processes have done nothing, and the schema and the rows agree.
  pub Reach-Built :
      {first : E.Schema} {s t : System E sha256}
      → Reach E sha256 s t
      → Built E sha256 first s.database
      → All IsStarting s.processes
      → Built E sha256 first t.database × All (Finished (ledger E sha256 t.database)) t.processes
  Reach-Built {s} {t} r b h =
      let sound = Reach-IsSound r (record {
        built = b;
        known = All-map (starting-Knows (ledger E sha256 s.database)) s.processes h;
      }) in
      (sound.built, All-map (Knows-Finished (ledger E sha256 t.database)) t.processes sound.known)
