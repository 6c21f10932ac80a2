-- ===== src/Accounts/Transaction.antt =====
-- `sync_accounts` of src/pricewatch/accounts.py as a whole, in its transaction. Where the schema
-- holds the table `accounts` is a parameter.
use pricewatch.Base.{
  if◌then◌else◌, ◌≡◌, refl, ◌||◌, Bool, true, false, not, is_empty, none, some, List, [], ◌∷◌, Text,
  subst, sym, ◌∙◌,
}
use pricewatch.Errors.{Result, ok, err, other}
use pricewatch.Config.Model.{AccountConfig}
use pricewatch.Db.Connection.{
  Engine, Database, Conn, in_transaction, transaction, finish_transaction, rollback,
}
use pricewatch.Db.Runner.{visible, write, and_then}
use pricewatch.Accounts.Table.{Table, upsert, disable_except, disable_all}
use pricewatch.Accounts.Sync.{sync_table, upsert_all}
use pricewatch.Config.Names.{names}

-- Access to the table `accounts` of a schema.
pub record Accounts (S : Type 0) : Type 0 where
  pub read : S → Table
  pub write : Table → S → S
  -- SQLite refuses a statement that would make the second table of the first one: a constraint, a
  -- full disk.
  pub refuses : Table → Table → Bool

-- What is written is read back.
abbrev pub IsLawful : {S : Type 0} → Accounts S → Type 0
IsLawful {S} a = (t : Table) (s : S) → a.read (a.write t s) ≡ t

module _ (E : Engine) (accounts : Accounts E.Schema) where
  abbrev pub stored : Conn E → Table
  stored c = accounts.read c.committed.schema

  abbrev pub with_table : (Table → Table) → Database E → Database E
  with_table f d = record d { schema = accounts.write (f (accounts.read d.schema)) d.schema }

  -- `conn.execute` of one UPDATE, into the transaction that is open, or committed by itself.
  unfoldable pub update_table : (Table → Table) → Conn E → Result (Unit {0}) × Conn E
  update_table f c =
      if c.locked
      then (err other, c)
      else if in_transaction E c
      then (ok tt, write E (with_table f (visible E c)) c)
      else if E.commits (with_table f (visible E c)).schema
      then (ok tt, write E (with_table f (visible E c)) c)
      else (err other, c)

  -- One statement inside the transaction: where it raises, the ones before it are done.
  unfoldable pub statement : (Table → Table) → Table → Result (Unit {0}) × Table
  statement f t = if accounts.refuses t (f t) then (err other, t) else (ok tt, f t)

  -- The loop of `sync_accounts`.
  unfoldable pub upsert_each : Text → List AccountConfig → Table → Result (Unit {0}) × Table
  unfolding statement
  upsert_each now [] t = (ok tt, t)
  upsert_each now (a ∷ rest) t = and_then (statement (upsert now a) t) (upsert_each now rest)

  -- The statement behind the loop.
  unfoldable pub disable : List AccountConfig → Table → Table
  unfolding disable_except disable_all
  disable configured =
      if not (is_empty (names configured)) then disable_except (names configured) else disable_all

  -- The block of `sync_accounts`, its statements one after another.
  unfoldable pub sync_block : Text → List AccountConfig → Table → Result (Unit {0}) × Table
  unfolding upsert_each disable statement
  sync_block now configured t =
      and_then (upsert_each now configured t) (statement (disable configured))

  unfoldable pub sync_accounts : Text → List AccountConfig → Conn E → Result (Unit {0}) × Conn E
  unfolding transaction sync_block
  sync_accounts now configured = transaction E other (λ d.
      let (r, t) = sync_block now configured (accounts.read d.schema) in
      (r, record d { schema = accounts.write t d.schema }))

  -- This table has been made, if no statement has raised.
  abbrev pub Makes : Table → Result (Unit {0}) × Table → Type 0
  Makes s (ok _, t) = t ≡ s
  Makes s (err _, t) = Unit

  statement-Makes : (f : Table → Table) (t : Table) → Makes (f t) (statement f t)
  unfolding statement
  statement-Makes f t = go (accounts.refuses t (f t))
    where
      go : (b : Bool) → Makes (f t) (if b then (err other, t) else (ok tt, f t))
      go true = tt
      go false = refl

  and_then-Makes :
      (x : Result (Unit {0}) × Table) (k : Table → Result (Unit {0}) × Table) (s s' : Table)
      → Makes s x
      → Makes s' (k s)
      → Makes s' (and_then x k)
  and_then-Makes (ok _, t) k s s' h q = subst (λ r. Makes s' (k r)) (sym h) q
  and_then-Makes (err e, t) k s s' h q = tt

  upsert_each-Makes :
      (now : Text) (configured : List AccountConfig) (t : Table)
      → Makes (upsert_all now configured t) (upsert_each now configured t)
  unfolding upsert_each upsert_all
  upsert_each-Makes now [] t = refl
  upsert_each-Makes now (a ∷ rest) t =
      and_then-Makes (statement (upsert now a) t) (upsert_each now rest) (upsert now a t)
        (upsert_all now rest (upsert now a t)) (statement-Makes (upsert now a) t)
        (upsert_each-Makes now rest (upsert now a t))

  disable-sync_table :
      (now : Text) (configured : List AccountConfig) (t : Table)
      → disable configured (upsert_all now configured t) ≡ sync_table now configured t
  unfolding disable sync_table
  disable-sync_table now [] t = refl
  disable-sync_table now (a ∷ rest) t = refl

  pub sync_block-Makes :
      (now : Text) (configured : List AccountConfig) (t : Table)
      → Makes (sync_table now configured t) (sync_block now configured t)
  unfolding sync_block
  sync_block-Makes now configured t =
      and_then-Makes (upsert_each now configured t) (statement (disable configured))
        (upsert_all now configured t) (sync_table now configured t)
        (upsert_each-Makes now configured t)
        (subst (λ r. Makes r (statement (disable configured) (upsert_all now configured t)))
          (disable-sync_table now configured t)
          (statement-Makes (disable configured) (upsert_all now configured t)))

  -- What a call has done, by how it ended.
  abbrev pub SyncsOrNot : Text → List AccountConfig → Conn E → Result (Unit {0}) × Conn E → Type 0
  SyncsOrNot now configured c (ok _, c') =
      (stored c' ≡ sync_table now configured (stored c)) × (c'.pending ≡ none)
  SyncsOrNot now configured c (err _, c') = stored c' ≡ stored c

  -- `sync_accounts` commits the whole synced table and leaves no transaction open, or it raises
  -- and the committed table is what it was: whether BEGIN or COMMIT is refused, or any of its
  -- statements.
  pub sync_accounts-SyncsOrNot :
      (now : Text) (configured : List AccountConfig) (c : Conn E)
      → IsLawful accounts
      → SyncsOrNot now configured c (sync_accounts now configured c)
  unfolding sync_accounts transaction finish_transaction rollback
  sync_accounts-SyncsOrNot now configured c law =
      go (c.locked || in_transaction E c) (sync_block now configured (stored c))
        (sync_block-Makes now configured (stored c))
    where
      go :
          (busy : Bool) (x : Result (Unit {0}) × Table)
          → Makes (sync_table now configured (stored c)) x
          → let d : Database E = record c.committed {
            schema = accounts.write x.1 c.committed.schema;
          } in
            SyncsOrNot now configured c
              (if busy then (err other, c) else finish_transaction E other c x.0 d)
      go true x h = refl
      go false (err e, t) h = refl
      go false (ok _, t) h = committed (E.commits (accounts.write t c.committed.schema))
        where
          d : Database E
          d = record c.committed { schema = accounts.write t c.committed.schema }

          committed :
              (b : Bool)
              → SyncsOrNot now configured c (
                  if b
                  then (ok tt, record c { committed = d; pending = none })
                  else (err other, record c { pending = some d }))
          committed true = (law t c.committed.schema ∙ h, refl)
          committed false = refl
