-- ===== src/Db/Migrate.antt =====
-- `migrate` of src/pricewatch/db/__init__.py as a whole: what a return means, and a further call.
use pricewatch.Base.{ℕ, ◌≡◌, refl, ◌≢◌, true, none, some, List, [], Text, ◌∙◌, arith, is_some, sym}
use pricewatch.Base.Unicode.{Unicode}
use pricewatch.Base.Dict.{nat_key}
use pricewatch.Errors.{Error, Result, ok, err, modified}
use pricewatch.Db.Files.{Migration, FileEntry, load_migrations}
use pricewatch.Db.Connection.{Engine, Conn}
use pricewatch.Db.Runner.{rows, ensure_table, migrate, migrate_to, find_modified}
use pricewatch.Db.Recorded.{applied_of}
use pricewatch.Db.Complete.{IsComplete, migrate_to-IsComplete, migrate_to-again}

module _ (E : Engine) (sha256 : Text → Text) where
  ensure_table-ok :
      (c c₁ : Conn E)
      → c.pending ≡ none
      → ensure_table E c ≡ (ok tt, c₁)
      → (c₁.pending ≡ none) × (is_some c₁.committed.recorded ≡ true)
  unfolding ensure_table
  ensure_table-ok c c₁ h e = ground arith

  ensure_table-again :
      (c : Conn E)
      → c.pending ≡ none
      → is_some c.committed.recorded ≡ true
      → ensure_table E c ≡ (ok tt, c)
  unfolding ensure_table
  ensure_table-again c h t = ground arith

  migrate-no_table :
      (u : Unicode) (fs : List FileEntry) (now : Migration → Text) (done : List Migration)
      (c c₁ c' : Conn E) (e : Error)
      → ensure_table E c ≡ (err e, c₁)
      → migrate E sha256 u now fs c ≢ (ok done, c')
  unfolding migrate
  migrate-no_table u fs now done c c₁ c' e t q = ground arith

  module _ (u : Unicode) (fs : List FileEntry) {available : List Migration} where
    migrate-load :
        (now : Migration → Text) (c c₁ : Conn E)
        → load_migrations u fs ≡ ok available
        → ensure_table E c ≡ (ok tt, c₁)
        → migrate E sha256 u now fs c ≡ migrate_to E sha256 now available c₁
    unfolding migrate
    migrate-load now c c₁ l t = ground arith

    -- If `migrate` returns on a connection with no open transaction, then every migration file is
    -- recorded with the checksum that it has now, no other version is recorded, and no
    -- transaction is open.
    pub migrate-IsComplete :
        (now : Migration → Text) (done : List Migration) (c c' : Conn E)
        → load_migrations u fs ≡ ok available
        → c.pending ≡ none
        → migrate E sha256 u now fs c ≡ (ok done, c')
        → IsComplete E sha256 available c'
    migrate-IsComplete now done c c' l h e = go (ensure_table E c) refl
      where
        go :
            (x : Result (Unit {0}) × Conn E)
            → ensure_table E c ≡ x
            → IsComplete E sha256 available c'
        go (ok _, c₁) t =
            let (closed, table) = ensure_table-ok c c₁ h t in
            migrate_to-IsComplete E sha256 now available done c₁ c' closed table
              (sym (migrate-load now c c₁ l t) ∙ e)
        go (err x, c₁) t = absurd (migrate-no_table u fs now done c c₁ c' x t e)

    pub migrate_complete :
        (now : Migration → Text) (c : Conn E)
        → load_migrations u fs ≡ ok available
        → IsComplete E sha256 available c
        → migrate E sha256 u now fs c ≡ (ok [], c)
    migrate_complete now c l k =
        migrate-load now c c l (ensure_table-again c k.closed k.table)
        ∙ migrate_to-again E sha256 now available c k

    -- A call of `migrate` after one that returned on a connection with no open transaction, with
    -- the same files and at any later time, applies nothing and changes nothing.
    pub migrate-again :
        (now now' : Migration → Text) (done : List Migration) (c c' : Conn E)
        → load_migrations u fs ≡ ok available
        → c.pending ≡ none
        → migrate E sha256 u now fs c ≡ (ok done, c')
        → migrate E sha256 u now' fs c' ≡ (ok [], c')
    migrate-again now now' done c c' l h e =
        migrate_complete now' c' l (migrate-IsComplete now done c c' l h e)

  -- A migration whose record has another checksum than its file stops `migrate` before it applies
  -- anything: it names the first such version, and the connection is as it was.
  migrate_to-modified :
      (now : Migration → Text) (available : List Migration) (c : Conn E) (v : ℕ)
      → find_modified E sha256 (applied_of (rows E c)) available ≡ some v
      → migrate_to E sha256 now available c ≡ (err (modified v), c)
  unfolding migrate_to
  migrate_to-modified now available c v h = ground arith
