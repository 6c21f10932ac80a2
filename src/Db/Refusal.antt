-- ===== src/Db/Refusal.antt =====
-- The two checks of `migrate` in src/pricewatch/db/__init__.py: for an edited migration, and for a
-- database that is newer than the code.
use pricewatch.Base.{
  ℕ, ◌≡◌, ◌≢◌, true, false, none, some, List, [], ◌∷◌, Text, arith, any, ◌==◌, All, Bool-cases, inl,
  inr, is_empty, text_eq_iff, Option-cases, is_some, subst,
}
use pricewatch.Base.Unicode.{Unicode}
use pricewatch.Base.Dict.{nat_key, lookup}
use pricewatch.Errors.{Error, ok, err, modified, orphans}
use pricewatch.Db.Files.{Migration, FileEntry, versions, load_migrations, latest_available_version}
use pricewatch.Db.Connection.{Engine, Row, Conn}
use pricewatch.Db.Runner.{
  rows, checksum, find_modified, orphans_of, migrate_to, migrate, current_version,
}
use pricewatch.Db.Records.{orphans_of-KeysIn}
use pricewatch.Db.Recorded.{applied_of}
use pricewatch.Db.Order.{rows_in, load_migrations-Rising, current_version-eq-last}
use pricewatch.Db.Migrate.{migrate-IsComplete}

-- A migration of the list.
pub data Holds (m : Migration) : List Migration → Type 0 where
  here : {ms : List Migration} → Holds m (m ∷ ms)
  later : {n : Migration} {ms : List Migration} → Holds m ms → Holds m (n ∷ ms)

-- A row of the table.
pub data HasRow (v : ℕ) : List Row → Type 0 where
  first : (r : Row) {rs : List Row} → r.version ≡ v → HasRow v (r ∷ rs)
  behind : {r : Row} {rs : List Row} → HasRow v rs → HasRow v (r ∷ rs)

All-HasRow :
    (P : ℕ → Type 0) (v : ℕ) {rs : List Row} → HasRow v rs → All (λ r. P r.version) rs → P v
All-HasRow P v (first r e) h = subst P e h.0
All-HasRow P v (behind w) h = All-HasRow P v w h.1

module _ (E : Engine) (sha256 : Text → Text) where
  find_modified-some :
      (c : Conn E) (m : Migration) (n recorded : Text) {ms : List Migration}
      → Holds m ms
      → lookup m.version (applied_of (rows E c)) ≡ some (n, recorded)
      → recorded ≢ checksum E sha256 m
      → is_some (find_modified E sha256 (applied_of (rows E c)) ms) ≡ true
  unfolding find_modified
  find_modified-some c m n r here e h = ground (arith, text_eq_iff r (checksum E sha256 m))
  find_modified-some c m n r (later w) e h = ground (arith, find_modified-some c m n r w e h)

  -- A shipped migration whose record has another checksum than its file makes `migrate` raise
  -- "modified" for some version, with nothing applied.
  pub migrate_to_refuses_edit :
      (now : Migration → Text) (available : List Migration) (c : Conn E) (m : Migration)
      (n recorded : Text)
      → Holds m available
      → lookup m.version (applied_of (rows E c)) ≡ some (n, recorded)
      → recorded ≢ checksum E sha256 m
      → (v : ℕ) × (migrate_to E sha256 now available c ≡ (err (modified v), c))
  unfolding migrate_to
  migrate_to_refuses_edit now available c m n r w e h =
      elim (Option-cases (find_modified E sha256 (applied_of (rows E c)) available)) [
        | inl q ↦ absurd (ground (arith, find_modified-some c m n r w e h))
        | inr (v, q) ↦ (v, ground arith)
      ]

  -- A recorded version that the code does not ship makes `migrate` raise, with nothing applied.
  migrate_to_refuses_newer :
      (now : Migration → Text) (available : List Migration) (c : Conn E) (v : ℕ)
      → HasRow v (rows E c)
      → any (λ w. w == v) (versions available) ≡ false
      → (e : Error) × (migrate_to E sha256 now available c ≡ (err e, c))
  unfolding migrate_to
  migrate_to_refuses_newer now available c v w h =
      elim (Option-cases (find_modified E sha256 (applied_of (rows E c)) available)) [
        | inl q ↦ elim (Bool-cases (is_empty (orphans_of (applied_of (rows E c)) available))) [
          | inl o ↦
              let k = (orphans_of-KeysIn (applied_of (rows E c)) available).0 o in
              let i =
                All-HasRow (λ v. any (λ w. w == v) (versions available) ≡ true) v w
                  (rows_in (versions available) [] (rows E c) k).1 in
              absurd (cc (i, h))
          | inr o ↦ (orphans (orphans_of (applied_of (rows E c)) available), ground arith)
        ]
        | inr (x, q) ↦ (modified x, ground arith)
      ]

  -- When `migrate` has returned, the version of the database is the latest version that the
  -- directory ships, and reading it changes nothing.
  pub migrate-current_version :
      (u : Unicode) (now : Migration → Text) (fs : List FileEntry) (done available : List Migration)
      (c c' : Conn E)
      → load_migrations u fs ≡ ok available
      → c.pending ≡ none
      → migrate E sha256 u now fs c ≡ (ok done, c')
      → current_version E c' ≡ (latest_available_version u fs, c')
  unfolding latest_available_version
  migrate-current_version u now fs done available c c' l h e = rw l (
      current_version-eq-last E sha256 available c' (load_migrations-Rising u fs available l).0
        (migrate-IsComplete E sha256 u fs now done c c' l h e))
