-- ===== src/Db/Built.antt =====
-- When the schema of a database of src/pricewatch/db/__init__.py is built from its recorded scripts.
use pricewatch.Base.{
  ℕ, ◌≡◌, refl, Bool, true, false, ◌==◌, Option, none, some, List, [], ◌∷◌, ◌++◌, Text, any, map,
  if◌then◌else◌, arith, ap, sym, ◌∙◌, subst, any-append, map-append_one,
}
use pricewatch.Db.Files.{Migration}
use pricewatch.Db.Connection.{Engine, Row, Database, Conn}
use pricewatch.Db.Runner.{rows, rows_or_empty, row_of, checksum}
use pricewatch.Db.Atomic.{Landed, closed_conn}

-- No version stands twice.
abbrev pub Distinct : List Row → Type 0
Distinct [] = Unit
Distinct (r ∷ rs) = (any (λ q. q.version == r.version) rs ≡ false) × Distinct rs

pub Distinct-append :
    (rs : List Row) (r : Row)
    → Distinct rs
    → any (λ q. q.version == r.version) rs ≡ false
    → Distinct (rs ++ r ∷ [])
Distinct-append [] r d h = (refl, tt)
Distinct-append (q ∷ rs) r d h = (
  any-append (λ p. p.version == q.version) rs r d.0 (ground arith),
  Distinct-append rs r d.1 (ground arith),
)

module _ (E : Engine) (sha256 : Text → Text) where
  abbrev pub ledger : Database E → List Row
  ledger d = rows_or_empty d.recorded

  -- Scripts that run one after another, each to its end.
  unfoldable pub replay : List Migration → E.Schema → Option E.Schema
  replay [] s = some s
  replay (m ∷ ms) s =
      let rest = replay ms ((E.exec m.sql s).0) in if (E.exec m.sql s).1 then rest else none

  replay-append :
      (ms : List Migration) (m : Migration) (s t : E.Schema)
      → replay ms s ≡ some t
      → (E.exec m.sql t).1 ≡ true
      → replay (ms ++ m ∷ []) s ≡ some ((E.exec m.sql t).0)
  unfolding replay
  replay-append [] m s t h k = ground arith
  replay-append (n ∷ ms) m s t h k = ground (arith, replay-append ms m ((E.exec n.sql s).0) t)

  -- What a row says of the migration that it records.
  abbrev pub entry_of_row : Row → ℕ × (Text × Text)
  entry_of_row r = (r.version, (r.name, r.checksum))

  abbrev pub entry_of : Migration → ℕ × (Text × Text)
  entry_of m = (m.version, (m.name, checksum E sha256 m))

  -- The schema is what the recorded scripts make of the first one, each run once and to its end,
  -- in the order of the rows.
  pub record Built (first : E.Schema) (d : Database E) : Type 0 where
    pub ran : List Migration
    pub schema : replay ran first ≡ some d.schema
    pub recorded : map entry_of_row (ledger d) ≡ map entry_of ran
    pub distinct : Distinct (ledger d)

  pub Landed-Built :
      (first : E.Schema) (now : Text) (m : Migration) (d : Database E) (l : Bool) (c : Conn E)
      → Built first d
      → Landed E sha256 now m (closed_conn E sha256 d l) c
      → Built first c.committed
  unfolding rows row_of
  Landed-Built first now m d l c b h = record {
    ran = b.ran ++ m ∷ [];
    schema =
        replay-append b.ran m first d.schema b.schema h.complete
        ∙ ap (λ (s : E.Schema). some s) (sym h.schema);
    recorded =
        ap (λ o. map entry_of_row (rows_or_empty o)) h.recorded
        ∙ map-append_one entry_of_row (ledger d) (row_of E sha256 now m)
        ∙ ap (λ es. es ++ entry_of m ∷ []) b.recorded
        ∙ sym (map-append_one entry_of b.ran m);
    distinct =
        subst (λ o. Distinct (rows_or_empty o)) (sym h.recorded)
          (Distinct-append (ledger d) (row_of E sha256 now m) b.distinct h.fresh);
  }

  pub rows-closed : (c : Conn E) → c.pending ≡ none → rows E c ≡ ledger c.committed
  unfolding rows
  rows-closed c h = rw h refl
