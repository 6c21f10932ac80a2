-- ===== src/Db/Progress.antt =====
-- What a run of `migrate` in src/pricewatch/db/__init__.py leaves that may fail on its way.
use pricewatch.Base.{◌≡◌, refl, none, some, List, [], ◌∷◌, ◌++◌, Text, ap, ◌∙◌, subst, true}
use pricewatch.Errors.{Result, ok, err}
use pricewatch.Db.Files.{Migration}
use pricewatch.Db.Connection.{Engine, Conn}
use pricewatch.Db.Runner.{rows, row_of, apply, apply_all, and_then}
use pricewatch.Db.Atomic.{Landed, Lands, apply-Lands}

module _ (E : Engine) (sha256 : Text → Text) (now : Migration → Text) where
  -- One migration: what its SQL makes of the schema, and its row.
  unfoldable pub land : Migration → Conn E → Conn E
  land m c = record c {
    committed = record {
      schema = (E.exec m.sql c.committed.schema).0;
      recorded = some (rows E c ++ row_of E sha256 (now m) m ∷ []);
    };
    pending = none;
  }

  unfoldable pub land_all : List Migration → Conn E → Conn E
  unfolding land
  land_all [] c = c
  land_all (m ∷ ms) c = land_all ms (land m c)

  Landed-eq : (m : Migration) (c c' : Conn E) → Landed E sha256 (now m) m c c' → c' ≡ land m c
  unfolding land
  Landed-eq m c c' h = λ i. record {
    committed = record { schema = h.schema i; recorded = h.recorded i };
    pending = h.closed i;
    locked = h.lock i;
  }

  -- The scripts run one after another, each to its end.
  abbrev pub AllRun : List Migration → E.Schema → Type 0
  AllRun [] s = Unit
  AllRun (m ∷ ms) s = ((E.exec m.sql s).1 ≡ true) × AllRun ms ((E.exec m.sql s).0)

  -- The part of a run that was done whole, and what it did not reach.
  pub record Prefix (ms : List Migration) (c : Conn E) (x : Result (Unit {0}) × Conn E)
      : Type 0 where
    pub done : List Migration
    pub rest : List Migration
    pub split : ms ≡ done ++ rest
    pub complete : AllRun done c.committed.schema
    pub reached : x.1 ≡ land_all done c
    pub closed : x.1.pending ≡ none
    pub finished : x.0 ≡ ok tt → rest ≡ []

  -- From a connection with no open transaction, the loop of `migrate` does a first part of the
  -- pending migrations, in order, each with its SQL run to its end and its row recorded, and leaves
  -- no transaction open. If it returns, the part is all of them.
  pub apply_all-Prefix :
      (ms : List Migration) (c : Conn E)
      → c.pending ≡ none
      → Prefix ms c (apply_all E sha256 now ms c)
  unfolding apply_all land_all
  apply_all-Prefix [] c h = record {
    done = [];
    rest = [];
    split = refl;
    complete = tt;
    reached = refl;
    closed = h;
    finished = λ _. refl;
  }
  apply_all-Prefix (m ∷ ms) c h =
      go (apply E sha256 (now m) m c) (apply-Lands E sha256 (now m) m c h)
        (λ c₁. apply_all-Prefix ms c₁)
    where
      go :
          (x : Result (Unit {0}) × Conn E)
          → Lands E sha256 (now m) m c x
          → ((c₁ : Conn E) → c₁.pending ≡ none → Prefix ms c₁ (apply_all E sha256 now ms c₁))
          → Prefix (m ∷ ms) c (and_then x (apply_all E sha256 now ms))
      go (ok _, c₁) l ih =
          let p = ih c₁ l.closed in
          record {
            done = m ∷ p.done;
            rest = p.rest;
            split = ap (λ (l : List Migration). m ∷ l) p.split;
            complete = (l.complete, subst (AllRun p.done) l.schema p.complete);
            reached = p.reached ∙ ap (land_all p.done) (Landed-eq m c c₁ l);
            closed = p.closed;
            finished = p.finished;
          }
      go (err e, c₁) l ih = record {
        done = [];
        rest = m ∷ ms;
        split = refl;
        complete = tt;
        reached = l;
        closed = ap (λ (x : Conn E). x.pending) l ∙ h;
        finished = λ q. absurd (cc q);
      }
