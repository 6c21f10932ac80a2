-- ===== src/Db/Advances.antt =====
-- What a call of `migrate` in src/pricewatch/db/__init__.py may do to a database, however it ends.
use mathlib.Core.List.{append-nil, append_assoc}
use pricewatch.Base.{
  ◌≡◌, refl, Bool, true, false, Option, none, some, List, [], ◌∷◌, ◌++◌, Text, ap, sym, ◌∙◌, subst,
  ℕ, All, All-filter, filter, not, is_empty, if◌then◌else◌,
}
use pricewatch.Base.Dict.{Dict}
use pricewatch.Base.Unicode.{Unicode}
use pricewatch.Errors.{Result, ok, err, ◌>>=◌, modified, orphans}
use pricewatch.Db.Files.{Migration, FileEntry, load_migrations}
use pricewatch.Db.Connection.{Engine, Row, Database, Conn}
use pricewatch.Db.Runner.{
  rows, row_of, ensure_table, apply, apply_all, migrate_to, migrate, open_database, current_version,
  and_then, returning, rows_or_empty, max_version, find_modified, orphans_of, is_applied, add_rows,
}
use pricewatch.Db.Atomic.{Landed, Lands, apply-Lands, closed_conn, closed_eta}
use pricewatch.Db.Built.{Distinct, Distinct-append, ledger, rows-closed}
use pricewatch.Db.Processes.{plan, run_plan, migrate_to-plan}

module _ (E : Engine) (sha256 : Text → Text) (P : E.Schema → Type 0) where
  -- The recorded migrations of before stand first and stay distinct, and a property of the schema
  -- is kept.
  pub record Advances (d d' : Database E) : Type 0 where
    pub added : List Row
    pub recorded : ledger E sha256 d' ≡ ledger E sha256 d ++ added
    pub distinct : Distinct (ledger E sha256 d) → Distinct (ledger E sha256 d')
    pub kept : P d.schema → P d'.schema

  pub Advances-refl : (d : Database E) → Advances d d
  Advances-refl d = record {
    added = [];
    recorded = sym (append-nil (ledger E sha256 d));
    distinct = λ h. h;
    kept = λ h. h;
  }

  pub Advances-trans : {d d' d'' : Database E} → Advances d d' → Advances d' d'' → Advances d d''
  Advances-trans {d} a b = record {
    added = a.added ++ b.added;
    recorded =
        b.recorded
        ∙ ap (λ rs. rs ++ b.added) a.recorded
        ∙ append_assoc (ledger E sha256 d) a.added b.added;
    distinct = λ h. b.distinct (a.distinct h);
    kept = λ h. b.kept (a.kept h);
  }

  -- What a call has done, by how it ended.
  abbrev pub Settled : {A : Type 0} → Conn E → Result A × Conn E → Type 0
  Settled c (ok _, c') = (c'.pending ≡ none) × Advances c.committed c'.committed
  Settled c (err _, c') = Advances c.committed c'.committed

  pub Settled-Advances :
      {A : Type 0} (c : Conn E) (x : Result A × Conn E)
      → Settled c x
      → Advances c.committed x.1.committed
  Settled-Advances c (ok a, c') s = s.1
  Settled-Advances c (err e, c') s = s

  Settled-later :
      {A : Type 0} (c c' : Conn E) (x : Result A × Conn E)
      → Advances c.committed c'.committed
      → Settled c' x
      → Settled c x
  Settled-later c c' (ok a, c'') h s = (s.0, Advances-trans h s.1)
  Settled-later c c' (err e, c'') h s = Advances-trans h s

  and_then-Settled :
      {A B : Type 0} (c : Conn E) (x : Result A × Conn E) (k : Conn E → Result B × Conn E)
      → Settled c x
      → ((c' : Conn E) → c'.pending ≡ none → Settled c' (k c'))
      → Settled c (and_then x k)
  and_then-Settled c (ok a, c') k s q = Settled-later c c' (k c') s.1 (q c' s.0)
  and_then-Settled c (err e, c') k s q = s

  returning-Settled :
      {A : Type 0} (a : A) (c : Conn E) (x : Result (Unit {0}) × Conn E)
      → Settled c x
      → Settled c (returning a x)
  returning-Settled a c (ok t, c') s = s
  returning-Settled a c (err e, c') s = s

  -- A script that runs to its end keeps the property.
  abbrev pub KeepsRun : Migration → Type 0
  KeepsRun m = (s : E.Schema) → (E.exec m.sql s).1 ≡ true → P s → P ((E.exec m.sql s).0)

  -- Each migration file that a build ships does so.
  abbrev pub KeepsShipped : Unicode → List FileEntry → Type 0
  KeepsShipped u fs =
      (available : List Migration) → load_migrations u fs ≡ ok available → All KeepsRun available

  -- What is pending is some of what is available.
  plan-All :
      (Q : Migration → Type 0) (available : List Migration) (rs : List Row)
      → All Q available
      → (pending : List Migration) → plan E sha256 available rs ≡ ok pending
      → All Q pending
  unfolding plan
  plan-All Q available rs h pending e =
      go (find_modified E sha256 applied available) (is_empty (orphans_of applied available)) e
    where
      applied : Dict ℕ (Text × Text)
      applied = add_rows [] rs

      chosen : List Migration
      chosen = filter (λ m. not (is_applied applied m)) available

      go :
          (v : Option ℕ) (none_left : Bool)
          → let r : Result (List Migration) = elim v [
            | some v ↦ err (modified v)
            | none ↦
                if not none_left then err (orphans (orphans_of applied available)) else ok chosen
          ] in
            r ≡ ok pending → All Q pending
      go (some v) b e = absurd (cc e)
      go none false e = absurd (cc e)
      go none true e =
          let by : chosen ≡ pending = cc e in
          subst (All Q) by (All-filter Q (λ m. not (is_applied applied m)) available h)

  Landed-Advances :
      (now : Text) (m : Migration) (c c' : Conn E)
      → KeepsRun m
      → c.pending ≡ none
      → Landed E sha256 now m c c'
      → Advances c.committed c'.committed
  unfolding rows row_of
  Landed-Advances now m c c' k h l = record {
    added = row_of E sha256 now m ∷ [];
    recorded =
        ap rows_or_empty l.recorded
        ∙ ap (λ rs. rs ++ row_of E sha256 now m ∷ []) (rows-closed E sha256 c h);
    distinct = λ d.
        subst (λ o. Distinct (rows_or_empty o)) (sym l.recorded)
          (Distinct-append (rows E c) (row_of E sha256 now m)
            (subst Distinct (sym (rows-closed E sha256 c h)) d) l.fresh);
    kept = λ p. subst P (sym l.schema) (k c.committed.schema l.complete p);
  }

  apply-Settled :
      (now : Text) (m : Migration) (c : Conn E)
      → KeepsRun m
      → c.pending ≡ none
      → Settled c (apply E sha256 now m c)
  apply-Settled now m c k h = go (apply E sha256 now m c) (apply-Lands E sha256 now m c h)
    where
      go : (x : Result (Unit {0}) × Conn E) → Lands E sha256 now m c x → Settled c x
      go (ok t, c') l = (l.closed, Landed-Advances now m c c' k h l)
      go (err e, c') l =
          subst (λ (x : Conn E). Advances c.committed x.committed) (sym l)
            (Advances-refl c.committed)

  apply_all-Settled :
      (now : Migration → Text) (ms : List Migration) (c : Conn E)
      → All KeepsRun ms
      → c.pending ≡ none
      → Settled c (apply_all E sha256 now ms c)
  unfolding apply_all
  apply_all-Settled now [] c k h = (h, Advances-refl c.committed)
  apply_all-Settled now (m ∷ ms) c k h =
      and_then-Settled c (apply E sha256 (now m) m c) (apply_all E sha256 now ms)
        (apply-Settled (now m) m c k.0 h) (λ c'. apply_all-Settled now ms c' k.1)

  ensure_table-Settled_at :
      (s : E.Schema) (o : Option (List Row)) (l : Bool)
      → let c = closed_conn E sha256 (record { schema = s; recorded = o }) l in
        Settled c (ensure_table E c)
  unfolding ensure_table
  ensure_table-Settled_at s (some rs) l = (refl, Advances-refl _)
  ensure_table-Settled_at s none true = Advances-refl _
  ensure_table-Settled_at s none false =
      (refl, record { added = []; recorded = refl; distinct = λ d. d; kept = λ p. p })

  ensure_table-Settled : (c : Conn E) → c.pending ≡ none → Settled c (ensure_table E c)
  ensure_table-Settled c h =
      subst (λ x. Settled x (ensure_table E x)) (closed_eta E sha256 c h)
        (ensure_table-Settled_at c.committed.schema c.committed.recorded c.locked)

  migrate_to-Settled :
      (now : Migration → Text) (available : List Migration) (c : Conn E)
      → All KeepsRun available
      → c.pending ≡ none
      → Settled c (migrate_to E sha256 now available c)
  migrate_to-Settled now available c k h =
      subst (Settled c) (sym (migrate_to-plan E sha256 now available c))
        (go (plan E sha256 available (rows E c)) (plan-All KeepsRun available (rows E c) k))
    where
      go :
          (r : Result (List Migration))
          → ((pending : List Migration) → r ≡ ok pending → All KeepsRun pending)
          → Settled c (run_plan E sha256 now c r)
      go (err e) q = Advances-refl c.committed
      go (ok pending) q =
          returning-Settled pending c (apply_all E sha256 now pending c)
            (apply_all-Settled now pending c (q pending refl) h)

  -- Settled by `migrate`, whatever the files.
  pub migrate-Settled :
      (u : Unicode) (now : Migration → Text) (fs : List FileEntry) (c : Conn E)
      → KeepsShipped u fs
      → c.pending ≡ none
      → Settled c (migrate E sha256 u now fs c)
  unfolding migrate
  migrate-Settled u now fs c k h =
      and_then-Settled c (ensure_table E c)
        (λ c'. elim (load_migrations u fs) [
          | err e ↦ (err e, c')
          | ok available ↦ migrate_to E sha256 now available c'
        ])
        (ensure_table-Settled c h) (λ c' h'. go (load_migrations u fs) k c' h')
    where
      go :
          (r : Result (List Migration))
          → ((available : List Migration) → r ≡ ok available → All KeepsRun available)
          → (c' : Conn E) → c'.pending ≡ none
          → let x : Result (List Migration) × Conn E = elim r [
            | err e ↦ (err e, c')
            | ok available ↦ migrate_to E sha256 now available c'
          ] in
            Settled c' x
      go (err e) q c' h' = Advances-refl c'.committed
      go (ok available) q c' h' = migrate_to-Settled now available c' (q available refl) h'

  pub open_database-Settled :
      (u : Unicode) (now : Migration → Text) (fs : List FileEntry) (c : Conn E)
      → KeepsShipped u fs
      → c.pending ≡ none
      → Settled c (open_database E sha256 u now fs true c)
  unfolding open_database
  open_database-Settled u now fs c k h =
      and_then-Settled c (migrate E sha256 u now fs c) (λ c'. (ok tt, c'))
        (migrate-Settled u now fs c k h) (λ c' h'. (h', Advances-refl c'.committed))

  pub current_version-Settled : (c : Conn E) → c.pending ≡ none → Settled c (current_version E c)
  unfolding current_version
  current_version-Settled c h = go (ensure_table E c) (ensure_table-Settled c h)
    where
      go :
          (x : Result (Unit {0}) × Conn E)
          → Settled c x
          → Settled c (x.0 >>= λ _. ok (max_version (rows E x.1)), x.1)
      go (ok t, c') s = s
      go (err e, c') s = s
