-- ===== src/Db/Order.antt =====
-- The order in which `_load_migrations` of src/pricewatch/db/__init__.py returns the migrations,
-- and what `current_version` reads.
use mathlib.Core.List.{Perm}
use pricewatch.Base.{
  ℕ, ◌≡◌, refl, ◌≤◌, ◌<◌, true, false, List, [], ◌∷◌, Text, arith, any, ◌==◌, All, All-map,
  Bool-cases, inl, inr,
}
use pricewatch.Base.Unicode.{Unicode}
use pricewatch.Base.Sort.{sort, sort-perm, sort-IsSorted, IsSorted}
use pricewatch.Base.Dict.{Dict, nat_key, insert}
use pricewatch.Errors.{Result, ok, err}
use pricewatch.Db.Files.{
  Migration, FileEntry, scan, load_migrations, versions, version_le, has_duplicates, last_version,
}
use pricewatch.Db.Connection.{Engine, Row, Conn}
use pricewatch.Db.Runner.{add_rows, rows, max_version, current_version, ensure_table}
use pricewatch.Db.Records.{KeysIn, lookup-add_rows_absent, KeysIn-insert}
use pricewatch.Db.Recorded.{Recorded, lookup-nil}
use pricewatch.Db.Complete.{IsComplete}

-- The versions rise from each migration to every later one.
abbrev pub Rising : List Migration → Type 0
Rising [] = Unit
Rising (m ∷ ms) = All (λ n. m.version < n.version) ms × Rising ms

IsSorted-versions : (ms : List Migration) → IsSorted version_le (sort version_le ms)
IsSorted-versions ms =
    sort-IsSorted version_le (λ a b h. ground arith) (λ a b c h k. ground arith) ms

lt_of_no_duplicate :
    (m : Migration) (ms : List Migration)
    → All (λ n. version_le m n ≡ true) ms
    → any (λ y. m.version == y) (versions ms) ≡ false
    → All (λ n. m.version < n.version) ms
lt_of_no_duplicate m [] h k = tt
lt_of_no_duplicate m (n ∷ ms) h k =
    (ground (arith, h.0), lt_of_no_duplicate m ms h.1 (ground arith))

Rising-of_sorted :
    (ms : List Migration)
    → IsSorted version_le ms
    → has_duplicates (versions ms) ≡ false
    → Rising ms
unfolding has_duplicates
Rising-of_sorted [] s d = tt
Rising-of_sorted (m ∷ ms) s d =
    (lt_of_no_duplicate m ms s.0 (ground arith), Rising-of_sorted ms s.1 (ground arith))

load-parts :
    (u : Unicode) (fs : List FileEntry) (available : List Migration)
    → load_migrations u fs ≡ ok available
    → (found : List Migration) × (scan u fs ≡ ok found)
      × (sort version_le found ≡ available)
      × (has_duplicates (versions available) ≡ false)
unfolding load_migrations
load-parts u fs available h = go (scan u fs) refl
  where
    go :
        (x : Result (List Migration))
        → scan u fs ≡ x
        → (found : List Migration) × (scan u fs ≡ ok found)
          × (sort version_le found ≡ available)
          × (has_duplicates (versions available) ≡ false)
    go (ok found) q = (found, q, ground arith, ground arith)
    go (err e) q = absurd (ground arith)

-- A load that returns holds the migrations of the directory's files, as many times as they stand
-- there, with strictly rising versions.
pub load_migrations-Rising :
    (u : Unicode) (fs : List FileEntry) (available : List Migration)
    → load_migrations u fs ≡ ok available
    → Rising available × ((found : List Migration) × (scan u fs ≡ ok found) × Perm available found)
load_migrations-Rising u fs available h =
    let (found, scanned, sorted, distinct) = load-parts u fs available h in
    (
      Rising-of_sorted available (rw sorted at (IsSorted-versions found)) distinct,
      (found, scanned, rw sorted at (sort-perm version_le found)),
    )

last-le :
    (m : Migration) (ms : List Migration) → Rising (m ∷ ms) → m.version ≤ last_version (m ∷ ms)
unfolding last_version
last-le m [] r = omega arith
last-le m (n ∷ ms) r = omega (arith, last-le n ms r.1)

-- Every version of a rising list is at most its last one.
le-last :
    (v : ℕ) (ms : List Migration)
    → Rising ms
    → any (λ w. w == v) (versions ms) ≡ true
    → v ≤ last_version ms
unfolding last_version
le-last v [] r h = absurd (ground arith)
le-last v (m ∷ []) r h = ground arith
le-last v (m ∷ n ∷ ms) r h = elim (Bool-cases (m.version == v)) [
  | inl e ↦ ground (arith, last-le m (n ∷ ms) r)
  | inr e ↦ le-last v (n ∷ ms) r.1 (ground arith)
]

-- The rows whose dict has its keys in a list have their versions in it.
pub rows_in :
    (vs : List ℕ) (d : Dict ℕ (Text × Text)) (rs : List Row)
    → KeysIn vs (add_rows d rs)
    → KeysIn vs d × All (λ r. any (λ w. w == r.version) vs ≡ true) rs
unfolding add_rows
rows_in vs d [] k = (k, tt)
rows_in vs d (r ∷ rs) k =
    let (inserted, rest) = rows_in vs (insert r.version (r.name, r.checksum) d) rs k in
    let (here, before) = KeysIn-insert vs r.version (r.name, r.checksum) d inserted in
    (before, (here, rest))

max_version-le : (n : ℕ) (rs : List Row) → All (λ r. r.version ≤ n) rs → max_version rs ≤ n
unfolding max_version
max_version-le n [] h = omega arith
max_version-le n (r ∷ rs) h = omega (arith, h.0, max_version-le n rs h.1)

le-max_version : (v : ℕ) (rs : List Row) → any (λ r. r.version == v) rs ≡ true → v ≤ max_version rs
unfolding max_version
le-max_version v [] h = absurd (ground arith)
le-max_version v (r ∷ rs) h = elim (Bool-cases (r.version == v)) [
  | inl e ↦ ground arith
  | inr e ↦ omega (arith, le-max_version v rs (ground arith))
]

module _ (E : Engine) (sha256 : Text → Text) where
  last-le-max_version :
      (ms : List Migration) (rs : List Row)
      → All (Recorded E sha256 rs) ms
      → last_version ms ≤ max_version rs
  unfolding last_version
  last-le-max_version [] rs h = omega arith
  last-le-max_version (m ∷ []) rs h = elim (Bool-cases (any (λ r. r.version == m.version) rs)) [
    | inl e ↦ le-max_version m.version rs e
    | inr e ↦ absurd (cc (h.0.1, lookup-add_rows_absent m.version [] rs (lookup-nil m.version) e))
  ]
  last-le-max_version (m ∷ n ∷ ms) rs h = last-le-max_version (n ∷ ms) rs h.1

  -- On a complete database whose migrations rise, `current_version` is the last version, and the
  -- connection is as it was.
  pub current_version-eq-last :
      (available : List Migration) (c : Conn E)
      → Rising available
      → IsComplete E sha256 available c
      → current_version E c ≡ (ok (last_version available), c)
  unfolding current_version ensure_table
  current_version-eq-last available c r k =
      let upper = max_version-le (last_version available) (rows E c) (
        All-map (λ q i. le-last q.version available r i) (rows E c)
          (rows_in (versions available) [] (rows E c) k.no_others).1) in
      ground (arith, upper, last-le-max_version available (rows E c) k.recorded, k.closed, k.table)
