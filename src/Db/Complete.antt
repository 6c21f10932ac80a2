-- ===== src/Db/Complete.antt =====
-- The database when `migrate` of src/pricewatch/db/__init__.py has returned.
use pricewatch.Base.{
  ℕ, ◌≡◌, refl, true, none, some, List, [], ◌∷◌, Text, any, ◌==◌, arith, filter, not, is_empty, All,
  Bool-cases, inl, inr, is_some, Option-cases, text_eq_iff, text_eq_refl, All-map, All-filter,
}
use pricewatch.Base.Dict.{Dict, nat_key, lookup}
use pricewatch.Errors.{ok}
use pricewatch.Db.Files.{Migration, versions}
use pricewatch.Db.Connection.{Engine, Row, Conn}
use pricewatch.Db.Runner.{
  rows, apply_all, checksum, is_applied, find_modified, orphans_of, migrate_to,
}
use pricewatch.Db.Records.{KeysIn, orphans_of-KeysIn}
use pricewatch.Db.Recorded.{applied_of, Recorded, Done, apply_all-Done}

module _ (E : Engine) (sha256 : Text → Text) where
  -- Every available migration is recorded with its checksum, nothing else is, and no transaction
  -- is open.
  pub record IsComplete (available : List Migration) (c : Conn E) : Type 0 where
    pub recorded : All (Recorded E sha256 (rows E c)) available
    pub no_others : KeysIn (versions available) (applied_of (rows E c))
    pub closed : c.pending ≡ none
    pub table : is_some c.committed.recorded ≡ true

  -- A record that passes the first check of `migrate` is missing or has the file's checksum.
  abbrev pub Unmodified : Dict ℕ (Text × Text) → Migration → Type 0
  Unmodified d m =
      is_applied d m ≡ true → (n : Text) × (lookup m.version d ≡ some (n, checksum E sha256 m))

  pub find_modified-none :
      (d : Dict ℕ (Text × Text)) (ms : List Migration)
      → find_modified E sha256 d ms ≡ none
      → All (Unmodified d) ms
  unfolding find_modified is_applied
  find_modified-none d [] h = tt
  find_modified-none d (m ∷ ms) h = elim (Option-cases (lookup m.version d)) [
    | inl e ↦ (λ q. absurd (ground arith), find_modified-none d ms (ground arith))
    | inr ((n, r), e) ↦ (
      λ _. (n, ground (arith, text_eq_iff r (checksum E sha256 m))),
      find_modified-none d ms (ground arith),
    )
  ]

  none-find_modified :
      (d : Dict ℕ (Text × Text)) (ms : List Migration)
      → All (λ m. (n : Text) × (lookup m.version d ≡ some (n, checksum E sha256 m))) ms
      → find_modified E sha256 d ms ≡ none
  unfolding find_modified is_applied
  none-find_modified d [] h = refl
  none-find_modified d (m ∷ ms) h =
      ground (arith, h.0, text_eq_refl (checksum E sha256 m), none-find_modified d ms h.1)

  -- The migrations that are not recorded, as `migrate` takes them.
  abbrev pub pending_of : Dict ℕ (Text × Text) → List Migration → List Migration
  pending_of d = filter (λ m. not (is_applied d m))

  pending_of-nil :
      (d : Dict ℕ (Text × Text)) (ms : List Migration)
      → All (λ m. (n : Text) × (lookup m.version d ≡ some (n, checksum E sha256 m))) ms
      → pending_of d ms ≡ []
  unfolding is_applied
  pending_of-nil d [] h = refl
  pending_of-nil d (m ∷ ms) h = ground (arith, pending_of-nil d ms h.1, h.0)

  -- What was recorded and unmodified and what has been applied are all there is.
  pub All-Recorded :
      (rs rs' : List Row) (ms : List Migration)
      → ((n : Migration) → Recorded E sha256 rs n → Recorded E sha256 rs' n)
      → All (Unmodified (applied_of rs)) ms
      → All (Recorded E sha256 rs') (pending_of (applied_of rs) ms)
      → All (Recorded E sha256 rs') ms
  All-Recorded rs rs' [] keep u r = tt
  All-Recorded rs rs' (m ∷ ms) keep u r = elim (Bool-cases (is_applied (applied_of rs) m)) [
    | inl e ↦ (keep m (u.0 e), All-Recorded rs rs' ms keep u.1 (rw e at r))
    | inr e ↦
        let r' : All (Recorded E sha256 rs') (m ∷ pending_of (applied_of rs) ms) = rw e at r in
        (r'.0, All-Recorded rs rs' ms keep u.1 r'.1)
  ]

  All-versions :
      (ms : List Migration) → All (λ m. any (λ w. w == m.version) (versions ms) ≡ true) ms
  All-versions [] = tt
  All-versions (m ∷ ms) = (ground arith, All-map (λ n h. ground arith) ms (All-versions ms))

  -- What a return of `migrate_to` says of its parts.
  migrate_to-ok :
      (now : Migration → Text) (available done : List Migration) (c c' : Conn E)
      → migrate_to E sha256 now available c ≡ (ok done, c')
      → (find_modified E sha256 (applied_of (rows E c)) available ≡ none)
        × (is_empty (orphans_of (applied_of (rows E c)) available) ≡ true)
        × (apply_all E sha256 now (pending_of (applied_of (rows E c)) available) c ≡ (ok tt, c'))
        × (done ≡ pending_of (applied_of (rows E c)) available)
  unfolding migrate_to
  migrate_to-ok now available done c c' e = ground arith

  -- After a run of the checks and the loop that returns, the database is complete.
  pub migrate_to-IsComplete :
      (now : Migration → Text) (available done : List Migration) (c c' : Conn E)
      → c.pending ≡ none
      → is_some c.committed.recorded ≡ true
      → migrate_to E sha256 now available c ≡ (ok done, c')
      → IsComplete available c'
  migrate_to-IsComplete now available done c c' h t e =
      let d = applied_of (rows E c) in
      let (unmodified, no_orphans, loop, _) = migrate_to-ok now available done c c' e in
      let did : Done E sha256 (pending_of d available) c c' =
        apply_all-Done E sha256 now (pending_of d available) c c' h loop in
      record {
        recorded =
            All-Recorded (rows E c) (rows E c') available did.kept
              (find_modified-none d available unmodified) did.recorded;
        no_others =
            did.keys (versions available)
              (All-filter (λ m. any (λ w. w == m.version) (versions available) ≡ true)
                (λ m. not (is_applied d m)) available (All-versions available))
              ((orphans_of-KeysIn d available).0 no_orphans);
        closed = did.closed;
        table = did.table t;
      }

  -- On a complete database there is nothing to do.
  pub migrate_to-again :
      (now : Migration → Text) (available : List Migration) (c : Conn E)
      → IsComplete available c
      → migrate_to E sha256 now available c ≡ (ok [], c)
  unfolding migrate_to apply_all
  migrate_to-again now available c k = ground (
    arith,
    none-find_modified (applied_of (rows E c)) available k.recorded,
    (orphans_of-KeysIn (applied_of (rows E c)) available).1 k.no_others,
    pending_of-nil (applied_of (rows E c)) available k.recorded,
  )
