-- ===== src/Db/ProcessTests.antt =====
-- Processes that migrate one database, and the theorems at them.
use pricewatch.Base.{◌≡◌, refl, true, false, none, [], ◌∷◌, arith}
use pricewatch.Db.Runner
use pricewatch.Errors.{migration_failed}
use pricewatch.Base.Dict.{nat_key}
use pricewatch.Db.Runner.{
  migrate, migrate_to, apply, apply_all, ensure_table, current_version, rows, find_modified,
  checksum,
}
use pricewatch.Db.Processes.{
  Process, starting, working, raised, plan, move, moves, Reach, here, later,
}
use pricewatch.Db.Built.{Built, ledger, replay}
use pricewatch.Db.Interleaved.{Finished, Reach-Built}
use pricewatch.Base.{All}
use pricewatch.Db.Connection.{Database}
use pricewatch.Db.Ends.{has_ended, run_moves, run_moves-ends}
use pricewatch.Db.Tests.{engine, sha, now, session_state, shipped}

-- Two processes that both find the table empty: the second to apply the first script raises.
abbrev turn : Database engine → Process → Database engine × Process
turn = move engine sha false now

abbrev first_database : Database engine
first_database = record { schema = []; recorded = none }

abbrev one : Database engine × Process
one = turn first_database (starting shipped)

abbrev two : Database engine × Process
two = turn one.0 (starting shipped)

abbrev three : Database engine × Process
three = turn two.0 one.1

abbrev four : Database engine × Process
four = turn three.0 two.1

abbrev five : Database engine × Process
five = turn four.0 three.1

abbrev six : Database engine × Process
six = turn five.0 four.1

second_raises :
    (five.1 ≡ working shipped (session_state ∷ [])) × (six.1 ≡ raised (migration_failed 1))
unfolding move migrate ensure_table plan find_modified Runner.orphans_of Runner.is_applied
    Runner.add_rows apply rows
second_raises = (refl, refl)

both :
    Reach engine sha
      (record { database = first_database; processes = starting shipped ∷ starting shipped ∷ [] })
      (record { database = six.0; processes = five.1 ∷ six.1 ∷ [] })
both =
    later
      (later
        (later
          (later
            (later (later here (moves [] (starting shipped) (starting shipped ∷ []) false now refl))
              (moves (one.1 ∷ []) (starting shipped) [] false now refl))
            (moves [] one.1 (two.1 ∷ []) false now refl))
          (moves (three.1 ∷ []) two.1 [] false now refl))
        (moves [] three.1 (four.1 ∷ []) false now refl))
      (moves (five.1 ∷ []) four.1 [] false now refl)

nothing_ran : Built engine sha [] first_database
unfolding replay
nothing_ran = record { ran = []; schema = refl; recorded = refl; distinct = tt }

Reach-Built_example :
    Built engine sha [] six.0
    × All (Finished engine sha (ledger engine sha six.0)) (five.1 ∷ six.1 ∷ [])
Reach-Built_example = Reach-Built engine sha both nothing_ran (tt, (tt, tt))

-- At each move the process finds another database.
run_moves-ends_example :
    has_ended (
      run_moves engine sha
        ((false, (now, first_database))
          ∷ (false, (now, one.0))
          ∷ (true, (now, six.0))
          ∷ (false, (now, first_database))
          ∷ (false, (now, two.0))
          ∷ (false, (now, three.0))
          ∷ [])
        (starting shipped))
    ≡ true
run_moves-ends_example = run_moves-ends engine sha shipped _ (omega arith)
