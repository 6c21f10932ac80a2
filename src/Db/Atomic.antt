-- ===== src/Db/Atomic.antt =====
-- What one call of `_apply` in src/pricewatch/db/__init__.py leaves of a migration and its row.
use pricewatch.Base.{
  ◌≡◌, refl, Bool, true, false, none, some, [], ◌∷◌, ◌++◌, Text, any, ◌==◌, arith, sym, subst,
  Bool-cases, inl, inr, not, ◌||◌,
}
use pricewatch.Errors.{Result, ok, err}
use pricewatch.Db.Files.{Migration}
use pricewatch.Db.Connection.{Engine, Database, Conn, executescript, rollback}
use pricewatch.Db.Runner.{rows, row_of, settle, apply, checksum, is_checksum, is_safe_name}

module _ (E : Engine) (sha256 : Text → Text) where
  -- What a connection is after a migration has landed on it.
  pub record Landed (now : Text) (m : Migration) (c c' : Conn E) : Type 0 where
    pub schema : c'.committed.schema ≡ (E.exec m.sql c.committed.schema).0
    pub complete : (E.exec m.sql c.committed.schema).1 ≡ true
    pub recorded : c'.committed.recorded ≡ some (rows E c ++ row_of E sha256 now m ∷ [])
    pub fresh : any (λ q. q.version == m.version) (rows E c) ≡ false
    pub closed : c'.pending ≡ none
    pub lock : c'.locked ≡ c.locked

  -- The two ways in which `_apply` may end.
  abbrev pub Lands : Text → Migration → Conn E → Result (Unit {0}) × Conn E → Type 0
  Lands now m c (ok _, c') = Landed now m c c'
  Lands now m c (err _, c') = c' ≡ c

  abbrev pub closed_conn : Database E → Bool → Conn E
  closed_conn d l = record { committed = d; pending = none; locked = l }

  script-Lands :
      (now : Text) (m : Migration) (d : Database E) (l : Bool)
      → Lands now m
          (closed_conn d l)
          (settle E sha256 m (executescript E m.sql (row_of E sha256 now m) (closed_conn d l)))
  unfolding settle executescript rows rollback row_of
  script-Lands now m d l = ground arith

  -- A connection with no open transaction.
  pub closed_eta : (c : Conn E) → c.pending ≡ none → closed_conn c.committed c.locked ≡ c
  closed_eta c h = λ i. record { committed = c.committed; pending = sym h i; locked = c.locked }

  apply-Lands_closed :
      (now : Text) (m : Migration) (d : Database E) (l : Bool)
      → Lands now m (closed_conn d l) (apply E sha256 now m (closed_conn d l))
  unfolding apply
  apply-Lands_closed now m d l =
      elim (Bool-cases (not (is_checksum (checksum E sha256 m)) || not (is_safe_name m.name))) [
        | inl h ↦ rw h refl
        | inr h ↦ rw h (script-Lands now m d l)
      ]

  -- On a connection with no open transaction, `_apply` either returns, and then the migration's SQL
  -- has run to its end, its row stands behind the rows of before, its version was not recorded and
  -- no transaction is left open; or it raises, and then the connection is what it was.
  pub apply-Lands :
      (now : Text) (m : Migration) (c : Conn E)
      → c.pending ≡ none
      → Lands now m c (apply E sha256 now m c)
  apply-Lands now m c h =
      subst (λ x. Lands now m x (apply E sha256 now m x)) (closed_eta c h)
        (apply-Lands_closed now m c.committed c.locked)
