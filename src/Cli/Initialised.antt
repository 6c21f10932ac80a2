-- ===== src/Cli/Initialised.antt =====
-- What `init` of src/pricewatch/cli.py leaves in the database, run once and once more.
use pricewatch.Base.{
  ◌≡◌, refl, true, none, List, [], ◌∷◌, ◌++◌, Text, codes, arith, ap, sym, ◌∙◌, subst, length,
  is_some,
}
use pricewatch.Base.Unicode.{Unicode}
use pricewatch.Redaction.Value.{decimal}
use pricewatch.Errors.{Result, ok, err}
use pricewatch.Config.Model.{AccountConfig, Config, db_path}
use pricewatch.Config.Names.{Nodup, names}
use pricewatch.Db.Files.{Migration, FileEntry, load_migrations}
use pricewatch.Db.Connection.{Engine, Conn, rollback}
use pricewatch.Db.Runner.{migrate, rows}
use pricewatch.Db.Complete.{IsComplete}
use pricewatch.Db.Migrate.{migrate-IsComplete, migrate_complete}
use pricewatch.Accounts.Table.{Table}
use pricewatch.Accounts.Sync.{sync_table}
use pricewatch.Accounts.Synced.{sync_table-again}
use pricewatch.Accounts.Transaction.{
  Accounts, IsLawful, sync_accounts, stored, SyncsOrNot, sync_accounts-SyncsOrNot,
}
use pricewatch.Accounts.Listing.{ItemRow}
use pricewatch.Cli.Output.{Line, out, Printed, Ending, finished}
use pricewatch.Cli.Database.{printed, then_print, applied_lines, close, init}

module _ (E : Engine) (sha256 : Text → Text) (accounts : Accounts E.Schema) where
  -- A sync, the connection closed behind it, leaves the records of the migrations alone.
  sync-rows :
      (now : Text) (configured : List AccountConfig) (c : Conn E)
      → c.pending ≡ none
      → rows E (rollback E ((sync_accounts E accounts now configured c).1)) ≡ rows E c
  unfolding rows rollback sync_accounts
  sync-rows now configured c h = ground arith

  sync-recorded :
      (now : Text) (configured : List AccountConfig) (c : Conn E)
      → is_some c.committed.recorded ≡ true
      → is_some ((rollback E ((sync_accounts E accounts now configured c).1)).committed).recorded
        ≡ true
  unfolding rollback sync_accounts
  sync-recorded now configured c h = ground arith

  sync-closed :
      (now : Text) (configured : List AccountConfig) (c : Conn E)
      → (rollback E ((sync_accounts E accounts now configured c).1)).pending ≡ none
  unfolding rollback
  sync-closed now configured c = refl

  sync-stored :
      (now : Text) (configured : List AccountConfig) (c : Conn E)
      → stored E accounts (rollback E ((sync_accounts E accounts now configured c).1))
        ≡ stored E accounts ((sync_accounts E accounts now configured c).1)
  unfolding rollback
  sync-stored now configured c = refl

  sync-IsComplete :
      (now : Text) (configured : List AccountConfig) (available : List Migration) (c : Conn E)
      → IsComplete E sha256 available c
      → IsComplete E sha256 available (rollback E ((sync_accounts E accounts now configured c).1))
  sync-IsComplete now configured available c k =
      let same = sync-rows now configured c k.closed in
      record {
        recorded = rw same k.recorded;
        no_others = rw same k.no_others;
        closed = sync-closed now configured c;
        table = sync-recorded now configured c k.table;
      }

  module _ (u : Unicode) (items : E.Schema → List ItemRow) (fs : List FileEntry)
      (available : List Migration) where
    -- The lines that `init` ends with.
    abbrev pub init_lines : Config → List Migration → List Line
    init_lines config applied =
        out (codes "database  " ++ db_path config)
        ∷ (applied_lines (codes "  applied ") (codes "  schema already up to date") applied
            ++ (out (codes "  " ++ decimal (length config.accounts) ++ codes " account(s) synced")
                ∷ []))

    abbrev after_sync : Config → List Migration → Result (Unit {0}) × Conn E → Printed × Conn E
    after_sync config applied x = then_print x λ _ c. (printed (init_lines config applied), c)

    abbrev after_migrate : Text → Config → Result (List Migration) × Conn E → Printed × Conn E
    after_migrate synced_at config x = close E sha256 u (
        then_print x λ applied c.
          after_sync config applied (sync_accounts E accounts synced_at config.accounts c))

    -- A command that ended normally had nothing to apply.
    abbrev pub UpToDate : Config → Ending → List Line → Type 0
    UpToDate config finished lines = lines ≡ init_lines config []
    UpToDate config ending lines = Unit

    -- What holds once a command has initialised the database, from the connection that the
    -- migrations leave.
    pub record Initialised (now : Text) (config : Config) (migrated after : Conn E) : Type 0 where
      pub complete : IsComplete E sha256 available after
      pub synced :
          stored E accounts after ≡ sync_table now config.accounts (stored E accounts migrated)

    sync-Initialised :
        (now : Text) (config : Config) (applied : List Migration) (c : Conn E)
        (x : Result (Unit {0}) × Conn E)
        → IsLawful accounts
        → IsComplete E sha256 available c
        → sync_accounts E accounts now config.accounts c ≡ x
        → ((after_sync config applied x).0).ending ≡ finished
        → Initialised now config c (rollback E ((after_sync config applied x).1))
    sync-Initialised now config applied c (err e, d) law k same f = absurd (cc f)
    sync-Initialised now config applied c (ok _, d) law k same f = record {
      complete =
          subst (λ r. IsComplete E sha256 available (rollback E (r.1))) same
            (sync-IsComplete now config.accounts available c k);
      synced =
          ap (λ r. stored E accounts (rollback E (r.1))) (sym same)
          ∙ sync-stored now config.accounts c
          ∙ landed (
              subst (SyncsOrNot E accounts now config.accounts c) same
                (sync_accounts-SyncsOrNot E accounts now config.accounts c law));
    }
      where
        landed :
            SyncsOrNot E accounts now config.accounts c (ok tt, d)
            → stored E accounts ((sync_accounts E accounts now config.accounts c).1)
              ≡ sync_table now config.accounts (stored E accounts c)
        landed s = ap (λ r. stored E accounts (r.1)) same ∙ s.0

    -- When `init` ends normally, from a connection with no open transaction and with migration files
    -- that load, every migration of the directory is recorded and no other, no transaction is open,
    -- and the table of accounts is the one that the migrations left, synced with the config.
    pub init-Initialises :
        (now : Migration → Text) (synced_at : Text) (config : Config) (c : Conn E)
        → IsLawful accounts
        → load_migrations u fs ≡ ok available
        → c.pending ≡ none
        → ((init E sha256 u accounts items now synced_at fs config c).0).ending ≡ finished
        → Initialised synced_at config
            ((migrate E sha256 u now fs c).1)
            ((init E sha256 u accounts items now synced_at fs config c).1)
    unfolding init
    init-Initialises now synced_at config c law l h = go (migrate E sha256 u now fs c) refl
      where
        go :
            (x : Result (List Migration) × Conn E)
            → migrate E sha256 u now fs c ≡ x
            → ((after_migrate synced_at config x).0).ending ≡ finished
            → Initialised synced_at config (x.1) ((after_migrate synced_at config x).1)
        go (err e, c') same f = absurd (cc f)
        go (ok applied, c') same f =
            sync-Initialised synced_at config applied c'
              (sync_accounts E accounts synced_at config.accounts c') law
              (migrate-IsComplete E sha256 u fs now applied c c' l h same) refl f

    -- A further run has changed nothing.
    abbrev Same : Config → Conn E → Printed × Conn E → Type 0
    Same config c (p, c') =
        (stored E accounts c' ≡ stored E accounts c)
        × (rows E c' ≡ rows E c)
        × UpToDate config p.ending p.lines

    ending :
        (config : Config) (x : Result (Unit {0}) × Conn E)
        → UpToDate config ((after_sync config [] x).0).ending ((after_sync config [] x).0).lines
    ending config (ok _, c) = refl
    ending config (err e, c) = tt

    synced-rows :
        (later : Text) (config : Config) (c : Conn E) (x : Result (Unit {0}) × Conn E)
        → c.pending ≡ none
        → sync_accounts E accounts later config.accounts c ≡ x
        → rows E (rollback E ((after_sync config [] x).1)) ≡ rows E c
    synced-rows later config c (ok t, d) h same =
        ap (λ r. rows E (rollback E (r.1))) (sym same) ∙ sync-rows later config.accounts c h
    synced-rows later config c (err e, d) h same =
        ap (λ r. rows E (rollback E (r.1))) (sym same) ∙ sync-rows later config.accounts c h

    sync-stored_again :
        (later earlier : Text) (config : Config) (c : Conn E) (t : Table)
        → IsLawful accounts
        → Nodup (names config.accounts)
        → stored E accounts c ≡ sync_table earlier config.accounts t
        → (x : Result (Unit {0}) × Conn E) → sync_accounts E accounts later config.accounts c ≡ x
        → stored E accounts (rollback E ((after_sync config [] x).1)) ≡ stored E accounts c
    unfolding rollback
    sync-stored_again later earlier config c t law unique old (ok _, d) same =
        let s : SyncsOrNot E accounts later config.accounts c (ok tt, d) =
          subst (SyncsOrNot E accounts later config.accounts c) same
            (sync_accounts-SyncsOrNot E accounts later config.accounts c law) in
        s.0
        ∙ ap (sync_table later config.accounts) old
        ∙ sync_table-again earlier later config.accounts t unique
        ∙ sym old
    sync-stored_again later earlier config c t law unique old (err e, d) same =
        subst (SyncsOrNot E accounts later config.accounts c) same
          (sync_accounts-SyncsOrNot E accounts later config.accounts c law)

    -- `init` after an `init` that ended normally, on a connection with no open transaction, with
    -- the same files, which load, and the same config, whose account names are pairwise different,
    -- at any later time: however it ends, the table of accounts and the records of the migrations
    -- are what they were, and what it prints, if it ends normally, is that the schema is up to
    -- date.
    pub init-again :
        (now now' : Migration → Text) (synced_at later : Text) (config : Config) (c : Conn E)
        → IsLawful accounts
        → Nodup (names config.accounts)
        → load_migrations u fs ≡ ok available
        → c.pending ≡ none
        → ((init E sha256 u accounts items now synced_at fs config c).0).ending ≡ finished
        → let after = (init E sha256 u accounts items now synced_at fs config c).1 in
          let again = init E sha256 u accounts items now' later fs config after in
          (stored E accounts (again.1) ≡ stored E accounts after)
          × (rows E (again.1) ≡ rows E after)
          × UpToDate config (again.0).ending (again.0).lines
    unfolding init
    init-again now now' synced_at later config c law unique l h f =
        let k = init-Initialises now synced_at config c law l h f in
        let after = (init E sha256 u accounts items now synced_at fs config c).1 in
        let x = sync_accounts E accounts later config.accounts after in
        subst (Same config after)
          (ap (after_migrate later config)
            (sym (migrate_complete E sha256 u fs now' after l k.complete)))
          (
            sync-stored_again later synced_at config after
                (stored E accounts ((migrate E sha256 u now fs c).1)) law unique k.synced x refl,
            synced-rows later config after x k.complete.closed refl,
            ending config x,
          )
