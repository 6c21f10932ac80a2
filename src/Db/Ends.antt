-- ===== src/Db/Ends.antt =====
-- How many moves a process that runs `migrate` of src/pricewatch/db/__init__.py has left.
use pricewatch.Base.{
  ℕ, ◌+◌, ◌≤◌, ◌≡◌, refl, Bool, true, false, not, Option, none, some, List, [], ◌∷◌, Text, length,
  length-filter, filter, is_empty, if◌then◌else◌, arith,
}
use pricewatch.Errors.{Result, ok, err, modified, orphans}
use pricewatch.Db.Files.{Migration}
use pricewatch.Db.Connection.{Engine, Database, Row}
use pricewatch.Db.Runner.{
  rows, ensure_table, apply, find_modified, orphans_of, is_applied, add_rows,
}
use pricewatch.Db.Atomic.{closed_conn}
use pricewatch.Db.Processes.{
  Process, starting, created, working, returned, raised, plan, move, after_create, after_read,
  after_apply,
}

-- Whether a process has come to its end.
unfoldable pub has_ended : Process → Bool
has_ended (returned available) = true
has_ended (raised e) = true
has_ended p = false

-- How many moves a process has at most left.
abbrev left : Process → ℕ
left (starting available) = length available + 3
left (created available) = length available + 2
left (working available pending) = length pending + 1
left (returned available) = 0
left (raised e) = 0

module _ (E : Engine) (sha256 : Text → Text) where
  plan-shorter :
      (available : List Migration) (rs : List Row)
      → left (after_read E sha256 available (plan E sha256 available rs)) ≤ length available + 1
  unfolding plan
  plan-shorter available rs =
      go (find_modified E sha256 (add_rows [] rs) available)
        (is_empty (orphans_of (add_rows [] rs) available))
    where
      go :
          (o : Option ℕ) (b : Bool)
          → let r : Result (List Migration) = elim o [
            | some v ↦ err (modified v)
            | none ↦
                if not b
                then err (orphans (orphans_of (add_rows [] rs) available))
                else ok (filter (λ m. not (is_applied (add_rows [] rs) m)) available)
          ] in
            left (after_read E sha256 available r) ≤ length available + 1
      go (some v) b = omega arith
      go none false = omega arith
      go none true =
          omega (arith, length-filter (λ m. not (is_applied (add_rows [] rs) m)) available)

  create-shorter :
      (available : List Migration) (r : Result (Unit {0}))
      → left (after_create E sha256 available r) ≤ length available + 2
  create-shorter available (ok t) = omega arith
  create-shorter available (err e) = omega arith

  apply-shorter :
      (available rest : List Migration) (r : Result (Unit {0}))
      → left (after_apply E sha256 available rest r) ≤ length rest + 1
  apply-shorter available rest (ok t) = omega arith
  apply-shorter available rest (err e) = omega arith

  -- A move brings a process nearer to its end.
  move-nearer :
      (locked : Bool) (now : Migration → Text) (d : Database E) (p : Process) (n : ℕ)
      → left p ≤ n + 1
      → left ((move E sha256 locked now d p).1) ≤ n
  unfolding move
  move-nearer l now d (starting ms) n h =
      omega (arith, create-shorter ms ((ensure_table E (closed_conn E sha256 d l)).0))
  move-nearer l now d (created ms) n h =
      omega (arith, plan-shorter ms (rows E (closed_conn E sha256 d l)))
  move-nearer l now d (working ms []) n h = omega arith
  move-nearer l now d (working ms (m ∷ rest)) n h =
      omega (arith, apply-shorter ms rest ((apply E sha256 (now m) m (closed_conn E sha256 d l)).0))
  move-nearer l now d (returned ms) n h = omega arith
  move-nearer l now d (raised e) n h = omega arith

  ended_of_left : (p : Process) → left p ≤ 0 → has_ended p ≡ true
  unfolding has_ended
  ended_of_left (starting ms) h = absurd (omega (arith, h))
  ended_of_left (created ms) h = absurd (omega (arith, h))
  ended_of_left (working ms ps) h = absurd (omega (arith, h))
  ended_of_left (returned ms) h = refl
  ended_of_left (raised e) h = refl

  -- The moves of one process, each with the lock, the clock and the database that it finds.
  unfoldable pub run_moves : List (Bool × ((Migration → Text) × Database E)) → Process → Process
  run_moves [] p = p
  run_moves ((l, (now, d)) ∷ turns) p = run_moves turns ((move E sha256 l now d p).1)

  run_moves-ended :
      (turns : List (Bool × ((Migration → Text) × Database E))) (p : Process)
      → left p ≤ length turns
      → has_ended (run_moves turns p) ≡ true
  unfolding run_moves
  run_moves-ended [] p h = ended_of_left p h
  run_moves-ended ((l, (now, d)) ∷ turns) p h =
      run_moves-ended turns ((move E sha256 l now d p).1)
        (move-nearer l now d p (length turns) (omega (arith, h)))

  -- A process that migrates has returned or raised after at most as many moves of its own as it has
  -- loaded migrations, and three more, whatever other processes do between these: each move may
  -- find any database and the write lock free or held.
  pub run_moves-ends :
      (available : List Migration) (turns : List (Bool × ((Migration → Text) × Database E)))
      → length available + 3 ≤ length turns
      → has_ended (run_moves turns (starting available)) ≡ true
  run_moves-ends available turns h = run_moves-ended turns (starting available) h
