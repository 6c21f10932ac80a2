-- ===== src/Db/Recorded.antt =====
-- What the loop of `migrate` in src/pricewatch/db/__init__.py records of the migrations.
use pricewatch.Base.{
  ℕ, ◌≡◌, refl, true, false, none, some, List, [], ◌∷◌, ◌++◌, Text, any, ap, ◌==◌, arith, All,
  Bool-cases, inl, inr, ==_iff, is_some, subst,
}
use pricewatch.Base.Dict.{Dict, nat_key, lookup, lookup-insert}
use pricewatch.Errors.{Result, ok, err}
use pricewatch.Db.Files.{Migration}
use pricewatch.Db.Connection.{Engine, Row, Conn}
use pricewatch.Db.Runner.{add_rows, rows, row_of, apply, apply_all, checksum, and_then}
use pricewatch.Db.Records.{add_rows-append, lookup-add_rows_absent, KeysIn, insert-KeysIn}
use pricewatch.Db.Atomic.{Landed, Lands, apply-Lands}

-- The dict that `_applied` makes of rows.
abbrev pub applied_of : List Row → Dict ℕ (Text × Text)
applied_of rs = add_rows [] rs

pub lookup-nil : (v : ℕ) → lookup {V = Text × Text} v [] ≡ none
unfolding lookup
lookup-nil v = refl

module _ (E : Engine) (sha256 : Text → Text) where
  -- A version is recorded with this checksum.
  abbrev pub Recorded : List Row → Migration → Type 0
  Recorded rs m = (n : Text) × (lookup m.version (applied_of rs) ≡ some (n, checksum E sha256 m))

  rows_of_Landed :
      (now : Text) (m : Migration) (c c' : Conn E)
      → Landed E sha256 now m c c'
      → rows E c' ≡ rows E c ++ row_of E sha256 now m ∷ []
  unfolding rows
  rows_of_Landed now m c c' h = rw (h.closed, h.recorded)

  -- The migration that has landed is recorded.
  pub Recorded-self :
      (now : Text) (m : Migration) (c c' : Conn E)
      → Landed E sha256 now m c c'
      → Recorded (rows E c') m
  unfolding row_of
  Recorded-self now m c c' h = (
    m.name,
    rw (rows_of_Landed now m c c' h, add_rows-append [] (rows E c), lookup-insert) (ground arith),
  )

  -- What was recorded stays so: the primary key keeps its version from being taken again.
  pub Recorded-step :
      (now : Text) (m n : Migration) (c c' : Conn E)
      → Landed E sha256 now m c c'
      → Recorded (rows E c) n
      → Recorded (rows E c') n
  unfolding row_of
  Recorded-step now m n c c' h (t, e) = elim (Bool-cases (m.version == n.version)) [
    | inl same ↦
        let fresh : any (λ q. q.version == n.version) (rows E c) ≡ false =
          subst (λ v. any (λ q. q.version == v) (rows E c) ≡ false) ((==_iff _ _).0 same) h.fresh in
        absurd (cc (e, lookup-add_rows_absent n.version [] (rows E c) (lookup-nil n.version) fresh))
    | inr other ↦
        (t, rw (rows_of_Landed now m c c' h, add_rows-append [] (rows E c), lookup-insert, other) e)
  ]

  -- The versions recorded after a landing are among those of a list that has its version.
  KeysIn-step :
      (now : Text) (m : Migration) (c c' : Conn E) (vs : List ℕ)
      → Landed E sha256 now m c c'
      → any (λ w. w == m.version) vs ≡ true
      → KeysIn vs (applied_of (rows E c))
      → KeysIn vs (applied_of (rows E c'))
  unfolding row_of
  KeysIn-step now m c c' vs h i k =
      rw (rows_of_Landed now m c c' h, add_rows-append [] (rows E c))
        (insert-KeysIn vs m.version (m.name, checksum E sha256 m) (applied_of (rows E c)) i k)

  -- What a loop over migrations that returns has done.
  pub record Done (ms : List Migration) (c c' : Conn E) : Type 0 where
    pub kept : (n : Migration) → Recorded (rows E c) n → Recorded (rows E c') n
    pub recorded : All (Recorded (rows E c')) ms
    pub closed : c'.pending ≡ none
    pub table : is_some c.committed.recorded ≡ true → is_some c'.committed.recorded ≡ true
    pub keys :
        (vs : List ℕ)
        → All (λ m. any (λ w. w == m.version) vs ≡ true) ms
        → KeysIn vs (applied_of (rows E c))
        → KeysIn vs (applied_of (rows E c'))

  Done-cons :
      (now : Text) (m : Migration) (ms : List Migration) (c c₁ c' : Conn E)
      → Landed E sha256 now m c c₁
      → Done ms c₁ c'
      → Done (m ∷ ms) c c'
  Done-cons now m ms c c₁ c' h d = record {
    kept = λ n r. d.kept n (Recorded-step now m n c c₁ h r);
    recorded = (d.kept m (Recorded-self now m c c₁ h), d.recorded);
    closed = d.closed;
    table = λ _. d.table (rw h.recorded);
    keys = λ vs i k. d.keys vs i.1 (KeysIn-step now m c c₁ vs h i.0 k);
  }

  pub apply_all-Done :
      (now : Migration → Text) (ms : List Migration) (c c' : Conn E)
      → c.pending ≡ none
      → apply_all E sha256 now ms c ≡ (ok tt, c')
      → Done ms c c'
  unfolding apply_all
  apply_all-Done now [] c c' h e =
      subst (λ x. Done [] c x) (ap (λ (x : Result (Unit {0}) × Conn E). x.1) e)
        (record { kept = λ n r. r; recorded = tt; closed = h; table = λ t. t; keys = λ vs i k. k })
  apply_all-Done now (m ∷ ms) c c' h e =
      go (apply E sha256 (now m) m c) (apply-Lands E sha256 (now m) m c h)
        (λ c₁. apply_all-Done now ms c₁ c') e
    where
      go :
          (x : Result (Unit {0}) × Conn E)
          → Lands E sha256 (now m) m c x
          → ((c₁ : Conn E)
              → c₁.pending ≡ none
              → apply_all E sha256 now ms c₁ ≡ (ok tt, c')
              → Done ms c₁ c')
          → and_then x (apply_all E sha256 now ms) ≡ (ok tt, c')
          → Done (m ∷ ms) c c'
      go (ok _, c₁) l ih q = Done-cons (now m) m ms c c₁ c' l (ih c₁ l.closed q)
      go (err _, c₁) l ih q = absurd (cc (ap (λ (x : Result (Unit {0}) × Conn E). x.0) q))
