-- ===== src/Cli/Opened.antt =====
-- The connection that the commands of src/pricewatch/cli.py open, and one UPDATE on it.
use pricewatch.Base.{◌≡◌, refl, true, none, List, Text, arith, ap, sym, ◌∙◌}
use pricewatch.Base.Unicode.{Unicode}
use pricewatch.Errors.{Result, ok, err}
use pricewatch.Db.Files.{Migration, FileEntry, load_migrations}
use pricewatch.Db.Connection.{Engine, Conn, rollback}
use pricewatch.Db.Runner.{migrate, open_database, and_then}
use pricewatch.Db.Migrate.{migrate-IsComplete}
use pricewatch.Accounts.Table.{Table}
use pricewatch.Accounts.Transaction.{Accounts, IsLawful, stored, update_table}

module _ (E : Engine) (accounts : Accounts E.Schema) where
  -- What one UPDATE has done, once the connection is closed.
  abbrev pub Updates : (Table → Table) → Conn E → Result (Unit {0}) × Conn E → Type 0
  Updates g c (ok _, c') = stored E accounts (rollback E c') ≡ g (stored E accounts c)
  Updates g c (err _, c') = stored E accounts (rollback E c') ≡ stored E accounts c

  pub update_table-Updates :
      (g : Table → Table) (c : Conn E)
      → IsLawful accounts
      → c.pending ≡ none
      → Updates g c (update_table E accounts g c)
  unfolding update_table rollback
  update_table-Updates g c law h = ground (arith, law (g (stored E accounts c)) c.committed.schema)

module _ (E : Engine) (sha256 : Text → Text) (u : Unicode) (fs : List FileEntry)
    (available : List Migration) (now : Migration → Text) where
  abbrev pub opened : Conn E → Conn E
  opened c = (open_database E sha256 u now fs true c).1

  pub opened-closed :
      (c c' : Conn E)
      → load_migrations u fs ≡ ok available
      → c.pending ≡ none
      → open_database E sha256 u now fs true c ≡ (ok tt, c')
      → c'.pending ≡ none
  unfolding open_database
  opened-closed c c' l h e = go (migrate E sha256 u now fs c) refl e
    where
      go :
          (x : Result (List Migration) × Conn E)
          → migrate E sha256 u now fs c ≡ x
          → and_then x (λ d. (ok tt, d)) ≡ (ok tt, c')
          → c'.pending ≡ none
      go (ok applied, d) same f =
          let k = migrate-IsComplete E sha256 u fs now applied c d l h same in
          ap (λ r. (r.1).pending) (sym f) ∙ k.closed
      go (err x, d) same f = absurd (cc f)
