-- ===== src/Cli/ClearKept.antt =====
-- What `session clear` of src/pricewatch/cli.py may do to the database, however it ends.
use pricewatch.Base.{
  ℕ, ◌≡◌, refl, Bool, true, false, ◌||◌, not, Option, none, some, List, [], ◌∷◌, Text, arith,
  if◌then◌else◌, text_eq, codes,
}
use pricewatch.Base.Unicode.{Unicode}
use pricewatch.Errors.{Result, ok, err, other}
use pricewatch.Config.Model.{AccountConfig, Config, account}
use pricewatch.Db.Files.{Migration, FileEntry}
use pricewatch.Db.Connection.{Engine, Database, Conn, rollback}
use pricewatch.Db.Runner.{open_database}
use pricewatch.Db.Advances.{
  KeepsShipped, Advances-refl, Advances-trans, Settled, Settled-Advances, open_database-Settled,
}
use pricewatch.Accounts.Table.{
  Table, AccountRow, record_capture, captured, forget_session, forgotten, update_where,
}
use pricewatch.Accounts.Transaction.{Accounts, IsLawful, update_table}
use pricewatch.Accounts.Unique.{IsUnique, map-IsUnique}
use pricewatch.Session.Stored.{Floats}
use pricewatch.Session.Crypto.{Fernet, SessionCrypto, KeyPlace, load_or_create}
use pricewatch.Session.Store.{Codec, delete}
use pricewatch.Session.Tree.{Tree}
use pricewatch.Session.Files.{Disk}
use pricewatch.Cli.Output.{Printed, exits, out}
use pricewatch.Cli.Session.{Files, stopped, forget_row, clear_row, clear_files, session_clear}
use pricewatch.Cli.Kept.{UniqueIn, Keeps, update_table-Settled}

update_where-IsUnique :
    (name : Text) (g : AccountRow → AccountRow)
    → ((r : AccountRow) → (g r).id ≡ r.id)
    → ((r : AccountRow) → (g r).name ≡ r.name)
    → (t : Table) → IsUnique t
    → IsUnique (update_where name g t)
unfolding update_where
update_where-IsUnique name g i n =
    map-IsUnique (λ r. if text_eq r.name name then g r else r) (λ r. ground (arith, i r))
      (λ r. ground (arith, n r))

pub record_capture-IsUnique :
    (now name : Text) (verified : Bool) (t : Table)
    → IsUnique t
    → IsUnique (record_capture now name verified t)
unfolding record_capture captured
record_capture-IsUnique now name true =
    update_where-IsUnique name (captured now true) (λ r. refl) (λ r. refl)
record_capture-IsUnique now name false =
    update_where-IsUnique name (captured now false) (λ r. refl) (λ r. refl)

forget_session-IsUnique : (name : Text) (t : Table) → IsUnique t → IsUnique (forget_session name t)
unfolding forget_session forgotten
forget_session-IsUnique name = update_where-IsUnique name forgotten (λ r. refl) (λ r. refl)

module _ {fl : Floats} (f : Fernet) (codec : Codec fl) (generated : List ℕ) (E : Engine)
    (sha256 : Text → Text) (u : Unicode) (accounts : Accounts E.Schema)
    (law : IsLawful accounts) where
  same : (d : Database E) → Keeps E sha256 accounts d d
  same = Advances-refl E sha256 (UniqueIn E sha256 accounts)

  forget_row-Keeps :
      (name : Text) (c : Conn E)
      → c.pending ≡ none
      → Keeps E sha256 accounts c.committed
          ((forget_row f codec generated E sha256 u accounts name c).1.committed)
  unfolding forget_row rollback
  forget_row-Keeps name c h =
      Settled-Advances E sha256 (UniqueIn E sha256 accounts) c
        (update_table E accounts (forget_session name) c)
        (update_table-Settled E sha256 accounts (forget_session name) c law
          (forget_session-IsUnique name) h)

  clear_row-Keeps :
      (now : Migration → Text) (fs : List FileEntry) (name : Text) (c : Conn E)
      → KeepsShipped E sha256 (UniqueIn E sha256 accounts) u fs
      → c.pending ≡ none
      → Keeps E sha256 accounts c.committed
          ((clear_row f codec generated E sha256 u accounts now fs name c).1.committed)
  unfolding clear_row rollback
  clear_row-Keeps now fs name c k h =
      go (open_database E sha256 u now fs true c)
        (open_database-Settled E sha256 (UniqueIn E sha256 accounts) u now fs c k h)
    where
      go :
          (x : Result (Unit {0}) × Conn E)
          → Settled E sha256 (UniqueIn E sha256 accounts) c x
          → let r : Printed × Conn E = elim x.0 [
            | err e ↦ stopped e (rollback E x.1)
            | ok _ ↦ forget_row f codec generated E sha256 u accounts name x.1
          ] in
            Keeps E sha256 accounts c.committed r.1.committed
      go (err e, c') s = s
      go (ok t, c') s =
          Advances-trans E sha256 (UniqueIn E sha256 accounts) s.1 (forget_row-Keeps name c' s.0)

  clear_files-Keeps :
      (now : Migration → Text) (fs : List FileEntry) (crypto : SessionCrypto) (name : Text)
      (files : Files) (c : Conn E)
      → KeepsShipped E sha256 (UniqueIn E sha256 accounts) u fs
      → c.pending ≡ none
      → let r = clear_files f codec generated E sha256 u accounts now fs crypto name files c in
        Keeps E sha256 accounts c.committed r.1.1.committed
  unfolding clear_files
  clear_files-Keeps now fs crypto name files c k h =
      go (delete f codec crypto name (files.disk, files.tree))
    where
      row : Printed × Conn E
      row = clear_row f codec generated E sha256 u accounts now fs name c

      go :
          (x : Disk × Option Tree)
          → let r : Printed × (Files × Conn E) = elim x.1 [
            | none ↦ stopped other (record files { disk = x.0 }, c)
            | some tree ↦ (row.0, (record files { disk = x.0; tree = tree }, row.1))
          ] in
            Keeps E sha256 accounts c.committed r.1.1.committed
      go (disk, none) = same c.committed
      go (disk, some tree) = clear_row-Keeps now fs name c k h

  pub session_clear-Keeps :
      (now : Migration → Text) (fs : List FileEntry) (agreed confirmed : Bool) (name : Text)
      (config : Config) (files : Files) (c : Conn E)
      → KeepsShipped E sha256 (UniqueIn E sha256 accounts) u fs
      → c.pending ≡ none
      → let r =
          session_clear f codec generated E sha256 u accounts now fs agreed confirmed name config
            files c in
        Keeps E sha256 accounts c.committed r.1.1.committed
  unfolding session_clear
  session_clear-Keeps now fs agreed confirmed name config files c kept h =
      go (account config name) (load_or_create f generated files.keys) (agreed || confirmed)
    where
      go :
          (x : Result AccountConfig) (o : Result SessionCrypto × KeyPlace) (sure : Bool)
          → let r : Printed × (Files × Conn E) = elim x [
            | err e ↦ stopped e (files, c)
            | ok a ↦ elim o.0 [
              | err e ↦ stopped e (record files { keys = o.1 }, c)
              | ok k ↦
                  if not sure
                  then (
                    record { lines = out (codes "cancelled") ∷ []; ending = exits 1 },
                    (record files { keys = o.1 }, c),
                  )
                  else clear_files f codec generated E sha256 u accounts now fs k a.name
                      (record files { keys = o.1 })
                      c
            ]
          ] in
            Keeps E sha256 accounts c.committed r.1.1.committed
      go (err e) o sure = same c.committed
      go (ok a) (err e, keys) sure = same c.committed
      go (ok a) (ok k, keys) false = same c.committed
      go (ok a) (ok k, keys) true =
          clear_files-Keeps now fs k a.name (record files { keys = keys }) c kept h
