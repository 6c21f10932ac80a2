-- ===== src/Cli/Tests.antt =====
-- The theorems on commands, at a small database, config and set of files.
use pricewatch.Base.{◌≡◌, refl, true, [], ◌∷◌, codes}
use pricewatch.Base.Unicode.{ascii}
use pricewatch.Redaction.Value.{decimal}
use pricewatch.Db.Runner.{migrate, rows}
use pricewatch.Db.Files.{last_version}
use pricewatch.Accounts.Transaction.{stored}
use pricewatch.Session.Samples.{prefix_fernet, codec, crypto}
use pricewatch.Cli.Output.{out}
use pricewatch.Cli.Database.{printed, db_upgrade, db_version, init}
use pricewatch.Cli.Maintained.{db_upgrade-version}
use pricewatch.Cli.Initialised.{Initialised, UpToDate, init-Initialises, init-again}
use pricewatch.Cli.Cleared.{Cleared}
use pricewatch.Session.Samples.{prefix_fernet-IsFernet, codec-IsCodec}
use pricewatch.Cli.Login.{login}
use pricewatch.Cli.Opened.{opened}
use pricewatch.Cli.SignedIn.{SignedIn, login-SignedIn}
use pricewatch.Cli.Samples.{
  engine, whole, sha, now, files, shipped, empty_conn, load_files, asos_uk, config, upgrade_ends,
  init_ends, keys, state, configured, opens, world,
}

db_upgrade-version_example :
    let after = (db_upgrade engine sha ascii now files empty_conn).1 in
    db_version engine sha ascii files after
    ≡ (printed (out (decimal (last_version shipped)) ∷ []), after)
db_upgrade-version_example =
    db_upgrade-version engine sha ascii files now empty_conn load_files refl upgrade_ends

init-Initialises_example :
    Initialised engine sha whole ascii
      (λ s. [])
      files
      shipped
      (codes "t1")
      config
      ((migrate engine sha ascii now files empty_conn).1)
      ((init engine sha ascii whole (λ s. []) now (codes "t1") files config empty_conn).1)
init-Initialises_example =
    init-Initialises engine sha whole ascii (λ s. []) files shipped now (codes "t1") config
      empty_conn (λ t s. refl) load_files refl init_ends

init-again_example :
    let after =
      (init engine sha ascii whole (λ s. []) now (codes "t1") files config empty_conn).1 in
    let again = init engine sha ascii whole (λ s. []) now (codes "t2") files config after in
    (stored engine whole (again.1) ≡ stored engine whole after)
    × (rows engine (again.1) ≡ rows engine after)
    × UpToDate engine sha whole ascii
        (λ s. [])
        files
        shipped
        config
        (again.0).ending
        (again.0).lines
init-again_example =
    init-again engine sha whole ascii (λ s. []) files shipped now now (codes "t1") (codes "t2")
      config empty_conn (λ t s. refl) (tt, tt) load_files refl init_ends

login-SignedIn_example :
    let r =
      login prefix_fernet codec
        (codes "made")
        engine
        sha
        ascii
        whole
        now
        files
        (λ t. t)
        world
        (codes "daemon")
        true
        (codes "asos-uk")
        config
        state
        empty_conn in
    SignedIn prefix_fernet codec
      (codes "made")
      engine
      sha
      ascii
      whole
      world
      crypto
      (codes "asos-uk")
      state
      (opened engine sha ascii files shipped now empty_conn)
      (r.0)
      ((r.1).0)
      ((r.1).1)
login-SignedIn_example =
    login-SignedIn prefix_fernet codec (codes "made") engine sha ascii whole world
      prefix_fernet-IsFernet codec-IsCodec (λ t s. refl) files shipped now (λ t. t) (codes "daemon")
      true crypto keys (codes "asos-uk") config asos_uk state empty_conn configured opens load_files
      refl
