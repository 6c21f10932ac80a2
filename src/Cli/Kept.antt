-- ===== src/Cli/Kept.antt =====
-- What each command of src/pricewatch/cli.py may do to the database, however it ends.
use pricewatch.Base.{
  ℕ, ◌≡◌, refl, Bool, true, false, none, some, List, Text, sym, subst, if◌then◌else◌, ◌||◌,
}
use pricewatch.Base.Unicode.{Unicode}
use pricewatch.Errors.{Result, ok, err, other}
use pricewatch.Config.Model.{AccountConfig, Config}
use pricewatch.Db.Files.{Migration, FileEntry, latest_available_version}
use pricewatch.Db.Connection.{
  Engine, Database, Conn, rollback, in_transaction, transaction, finish_transaction,
}
use pricewatch.Db.Runner.{migrate, open_database, current_version, write}
use pricewatch.Db.Atomic.{closed_conn, closed_eta}
use pricewatch.Db.Advances.{
  Advances, KeepsShipped, Advances-refl, Advances-trans, Settled, migrate-Settled,
  open_database-Settled, current_version-Settled,
}
use pricewatch.Accounts.Table.{Table}
use pricewatch.Accounts.Sync.{sync_table}
use pricewatch.Accounts.Listing.{ItemRow}
use pricewatch.Accounts.Transaction.{
  Accounts, IsLawful, update_table, sync_accounts, sync_block, sync_block-Makes, Makes,
}
use pricewatch.Accounts.Unique.{IsUnique, sync_table-IsUnique}
use pricewatch.Cli.Output.{Printed}
use pricewatch.Cli.Database.{then_print, db_upgrade, db_version, init, accounts_cmd}

module _ (E : Engine) (sha256 : Text → Text) (accounts : Accounts E.Schema) where
  -- The ids and the names of the accounts are unique.
  abbrev pub UniqueIn : E.Schema → Type 0
  UniqueIn s = IsUnique (accounts.read s)

  abbrev pub Keeps : Database E → Database E → Type 0
  Keeps = Advances E sha256 UniqueIn

  -- The table is replaced by one that is as unique.
  Keeps-table :
      (t : Table) (d : Database E)
      → IsLawful accounts
      → (UniqueIn d.schema → IsUnique t)
      → Keeps d (record d { schema = accounts.write t d.schema })
  Keeps-table t d law h =
      let same = Advances-refl E sha256 UniqueIn d in
      record {
        added = same.added;
        recorded = same.recorded;
        distinct = same.distinct;
        kept = λ u. subst IsUnique (sym (law t d.schema)) (h u);
      }

  update_table-Settled_at :
      (g : Table → Table) (d : Database E) (l : Bool)
      → IsLawful accounts
      → ((t : Table) → IsUnique t → IsUnique (g t))
      → let c = closed_conn E sha256 d l in
        Settled E sha256 UniqueIn c (update_table E accounts g c)
  unfolding update_table
  update_table-Settled_at g d true law k = Advances-refl E sha256 UniqueIn d
  update_table-Settled_at g d false law k =
      go (E.commits (accounts.write (g (accounts.read d.schema)) d.schema))
    where
      d' : Database E
      d' = record d { schema = accounts.write (g (accounts.read d.schema)) d.schema }

      c : Conn E
      c = closed_conn E sha256 d false

      go :
          (b : Bool)
          → let x : Result (Unit {0}) × Conn E =
              if b then (ok tt, write E d' c) else (err other, c) in
            Settled E sha256 UniqueIn c x
      go true = (refl, Keeps-table (g (accounts.read d.schema)) d law (k (accounts.read d.schema)))
      go false = Advances-refl E sha256 UniqueIn d

  pub update_table-Settled :
      (g : Table → Table) (c : Conn E)
      → IsLawful accounts
      → ((t : Table) → IsUnique t → IsUnique (g t))
      → c.pending ≡ none
      → Settled E sha256 UniqueIn c (update_table E accounts g c)
  update_table-Settled g c law k h =
      subst (λ x. Settled E sha256 UniqueIn x (update_table E accounts g x))
        (closed_eta E sha256 c h) (update_table-Settled_at g c.committed c.locked law k)

  sync_accounts-Settled :
      (now : Text) (configured : List AccountConfig) (c : Conn E)
      → IsLawful accounts
      → Settled E sha256 UniqueIn c (sync_accounts E accounts now configured c)
  unfolding sync_accounts transaction finish_transaction rollback
  sync_accounts-Settled now configured c law =
      go (c.locked || in_transaction E c) (sync_block E accounts now configured before)
        (sync_block-Makes E accounts now configured before)
    where
      before : Table
      before = accounts.read c.committed.schema

      go :
          (busy : Bool) (x : Result (Unit {0}) × Table)
          → Makes E accounts (sync_table now configured before) x
          → let d : Database E = record c.committed {
            schema = accounts.write x.1 c.committed.schema;
          } in
            Settled E sha256 UniqueIn c
              (if busy then (err other, c) else finish_transaction E other c x.0 d)
      go true x h = Advances-refl E sha256 UniqueIn c.committed
      go false (err e, t) h = Advances-refl E sha256 UniqueIn c.committed
      go false (ok _, t) h = committed (E.commits (accounts.write t c.committed.schema))
        where
          d : Database E
          d = record c.committed { schema = accounts.write t c.committed.schema }

          committed :
              (b : Bool)
              → Settled E sha256 UniqueIn c (
                  if b
                  then (ok tt, record c { committed = d; pending = none })
                  else (err other, record c { pending = some d }))
          committed true = (
            refl,
            Keeps-table t c.committed law
                (λ q. subst IsUnique (sym h) (sync_table-IsUnique now configured before q)),
          )
          committed false = Advances-refl E sha256 UniqueIn c.committed

  then_print-Keeps :
      {A : Type 0} (c : Conn E) (x : Result A × Conn E) (k : A → Conn E → Printed × Conn E)
      → Settled E sha256 UniqueIn c x
      → ((a : A) (c' : Conn E) → c'.pending ≡ none → Keeps c'.committed ((k a c').1.committed))
      → Keeps c.committed ((then_print x k).1.committed)
  then_print-Keeps c (ok a, c') k s q = Advances-trans E sha256 UniqueIn s.1 (q a c' s.0)
  then_print-Keeps c (err e, c') k s q = s

  module _ (u : Unicode) (law : IsLawful accounts) where
    pub db_upgrade-Keeps :
        (now : Migration → Text) (fs : List FileEntry) (c : Conn E)
        → KeepsShipped E sha256 UniqueIn u fs
        → c.pending ≡ none
        → Keeps c.committed ((db_upgrade E sha256 u now fs c).1.committed)
    unfolding db_upgrade rollback
    db_upgrade-Keeps now fs c k h =
        then_print-Keeps c (migrate E sha256 u now fs c) _
          (migrate-Settled E sha256 UniqueIn u now fs c k h)
          (λ a c' h'. Advances-refl E sha256 UniqueIn c'.committed)

    pub db_version-Keeps :
        (fs : List FileEntry) (c : Conn E)
        → c.pending ≡ none
        → Keeps c.committed ((db_version E sha256 u fs c).1.committed)
    unfolding db_version rollback
    db_version-Keeps fs c h =
        then_print-Keeps c (current_version E c) _ (current_version-Settled E sha256 UniqueIn c h)
          (λ a c' h'.
            then_print-Keeps c' (latest_available_version u fs, c') _
              (listed c' h' (latest_available_version u fs))
              (λ b d h''. Advances-refl E sha256 UniqueIn d.committed))
      where
        listed :
            (c : Conn E) → c.pending ≡ none → (r : Result ℕ) → Settled E sha256 UniqueIn c (r, c)
        listed c h (ok n) = (h, Advances-refl E sha256 UniqueIn c.committed)
        listed c h (err e) = Advances-refl E sha256 UniqueIn c.committed

    module _ (items : E.Schema → List ItemRow) (now : Migration → Text) (synced_at : Text)
        (fs : List FileEntry) (config : Config) where
      pub init-Keeps :
          (c : Conn E)
          → KeepsShipped E sha256 UniqueIn u fs
          → c.pending ≡ none
          → Keeps c.committed
              ((init E sha256 u accounts items now synced_at fs config c).1.committed)
      unfolding init rollback
      init-Keeps c k h =
          then_print-Keeps c (migrate E sha256 u now fs c) _
            (migrate-Settled E sha256 UniqueIn u now fs c k h)
            (λ a c' h'.
              then_print-Keeps c' (sync_accounts E accounts synced_at config.accounts c') _
                (sync_accounts-Settled synced_at config.accounts c' law)
                (λ b d h''. Advances-refl E sha256 UniqueIn d.committed))

      pub accounts_cmd-Keeps :
          (c : Conn E)
          → KeepsShipped E sha256 UniqueIn u fs
          → c.pending ≡ none
          → Keeps c.committed
              ((accounts_cmd E sha256 u accounts items now synced_at fs config c).1.committed)
      unfolding accounts_cmd rollback
      accounts_cmd-Keeps c k h =
          then_print-Keeps c (open_database E sha256 u now fs true c) _
            (open_database-Settled E sha256 UniqueIn u now fs c k h)
            (λ a c' h'.
              then_print-Keeps c' (sync_accounts E accounts synced_at config.accounts c') _
                (sync_accounts-Settled synced_at config.accounts c' law)
                (λ b d h''. Advances-refl E sha256 UniqueIn d.committed))
