-- ===== src/Cli/SignedIn.antt =====
-- What `login` of src/pricewatch/cli.py leaves in the files and in the database.
use mathlib.Core.Option
use pricewatch.Base.{
  ℕ, ◌≡◌, refl, ◌⊎◌, inl, inr, Bool, true, false, Option, none, some, List, [], Text, ap, sym, ◌∙◌,
  subst,
}
use pricewatch.Base.Unicode.{Unicode}
use pricewatch.Errors.{Result, ok, err}
use pricewatch.Config.Model.{AccountConfig, Config, account, site_text}
use pricewatch.Db.Files.{Migration, FileEntry, load_migrations}
use pricewatch.Db.Connection.{Engine, Conn, rollback}
use pricewatch.Db.Runner.{open_database}
use pricewatch.Accounts.Table.{Table, record_capture}
use pricewatch.Accounts.Transaction.{Accounts, IsLawful, stored, update_table}
use pricewatch.Session.Stored.{Floats, StoredSession}
use pricewatch.Session.Crypto.{Fernet, IsFernet, KeyPlace, SessionCrypto, load_or_create}
use pricewatch.Session.Store.{Codec, IsCodec, load}
use pricewatch.Commands.Login.{World, Place, LoginResult, run_login}
use pricewatch.Commands.Outcome.{LoggedIn, run_login-LoggedIn}
use pricewatch.Cli.Output.{Line, Printed, Ending, finished, exits, raises}
use pricewatch.Cli.Session.{Files}
use pricewatch.Cli.Login.{opening_lines, login_printed, login_on, login}
use pricewatch.Cli.Maintained.{rollback-closed}
use pricewatch.Cli.Opened.{Updates, update_table-Updates, opened, opened-closed}

module _ {fl : Floats} (f : Fernet) (codec : Codec fl) (generated : List ℕ) (E : Engine)
    (sha256 : Text → Text) (u : Unicode) (accounts : Accounts E.Schema) (w : World fl) where
  -- The account's session loads.
  abbrev pub Loads : SessionCrypto → Text → Files → Type 0
  Loads crypto name files = (s : StoredSession fl) × (load f codec crypto name files.disk ≡ ok s)

  -- What the command may come to, by its ending, from the connection that `open_database` gives.
  abbrev pub EndsSignedIn : SessionCrypto → Text → Files → Conn E → Ending → Files → Conn E → Type 0
  EndsSignedIn crypto name files c finished files' c' =
      Loads crypto name files'
      × (stored E accounts c'
          ≡ record_capture w.captured_at name w.has_adapter (stored E accounts c))
  EndsSignedIn crypto name files c (raises e) files' c' =
      (stored E accounts c' ≡ stored E accounts c)
      × ((files'.disk ≡ files.disk) ⊎ Loads crypto name files')
  EndsSignedIn crypto name files c (exits n) files' c' = true ≡ false

  abbrev pub SignedIn :
      SessionCrypto → Text → Files → Conn E → Option Printed → Files → Conn E → Type 0
  SignedIn crypto name files c none files' c' =
      (files'.disk ≡ files.disk) × (stored E accounts c' ≡ stored E accounts c)
  SignedIn crypto name files c (some p) files' c' =
      EndsSignedIn crypto name files c p.ending files' c'

  module _ (lawful : IsFernet f) (is_codec : IsCodec fl codec) (law : IsLawful accounts) where
    -- What the command makes of a run of `run_login`.
    login_on-SignedIn :
        (crypto : SessionCrypto) (a : AccountConfig) (holder path : Text) (headless : Bool)
        (before : List Line) (files : Files) (c : Conn E)
        → c.pending ≡ none
        → let (r, (files', c')) =
            login_on f codec generated E sha256 u accounts crypto a w holder headless files c in
          SignedIn crypto a.name files c
            (Option.map (login_printed a.name path before) r)
            files'
            (rollback E c')
    unfolding login_on
    login_on-SignedIn crypto a holder path headless before files c h =
        go (update_table E accounts g c) (update_table-Updates E accounts g c law h)
      where
        g : Table → Table
        g = record_capture w.captured_at a.name w.has_adapter

        place : Place fl
        place = record { disk = files.disk; table = stored E accounts c }

        unchanged : stored E accounts (rollback E c) ≡ stored E accounts c
        unchanged = ap (stored E accounts) (rollback-closed E c h)

        finish :
            (updated : Result (Unit {0})) (c' : Conn E)
            (x : Option (Result (LoginResult fl)) × Place fl)
            → Updates E accounts g c (updated, c')
            → LoggedIn f codec crypto a.name (record w { updated = updated }) place x
            → let c'' : Conn E = elim x.0 [ some (ok _) ↦ c' | _ ↦ c ] in
              SignedIn crypto a.name files c
                (Option.map (login_printed a.name path before) (x.0))
                (record files { disk = (x.1).disk })
                (rollback E c'')
        finish updated c' (none, after) k l = (ap (λ p. p.disk) l, unchanged)
        finish updated c' (some (err e), after) k (inl l) = (unchanged, inl (ap (λ p. p.disk) l))
        finish updated c' (some (err e), after) k (inr (_, _, loads)) = (unchanged, inr loads)
        finish (ok _) c' (some (ok r), after) k (_, (_, _, _, (s, loads, _, _))) = ((s, loads), k)
        finish (err e) c' (some (ok r), after) k (raised, _) = absurd (cc raised)

        go :
            (y : Result (Unit {0}) × Conn E)
            → Updates E accounts g c y
            → let (r, p) =
                run_login fl f codec crypto a.name
                  (record w { updated = y.0 })
                  holder
                  (site_text a.site)
                  headless
                  place in
              let c'' : Conn E = elim r [ some (ok _) ↦ y.1 | _ ↦ c ] in
              SignedIn crypto a.name files c
                (Option.map (login_printed a.name path before) r)
                (record files { disk = p.disk })
                (rollback E c'')
        go (updated, c') k = finish updated c' _ k (
            run_login-LoggedIn f codec crypto a.name (record w { updated = updated }) lawful
              is_codec holder (site_text a.site) headless place)

    module _ (fs : List FileEntry) (available : List Migration) (now : Migration → Text)
        (path_of : Text → Text) (holder : Text) (headless : Bool) where
      -- What `login` does once the store is open.
      abbrev after_open :
          SessionCrypto
          → AccountConfig
          → Files
          → Result (Unit {0}) × Conn E
          → Option Printed × (Files × Conn E)
      after_open crypto a files x =
          let before = opening_lines a w.has_adapter in
          elim x.0 [
            | err e ↦
                (some (record { lines = before; ending = raises e }), (files, rollback E (x.1)))
            | ok _ ↦
                let (r, (files', c')) =
                  login_on f codec generated E sha256 u accounts crypto a w holder headless files
                    (x.1) in
                (
                  Option.map (login_printed a.name (path_of a.name) before) r,
                  (files', rollback E c'),
                )
          ]

      after_open-SignedIn :
          (crypto : SessionCrypto) (a : AccountConfig) (files : Files) (c : Conn E)
          → load_migrations u fs ≡ ok available
          → c.pending ≡ none
          → let r = after_open crypto a files (open_database E sha256 u now fs true c) in
            SignedIn crypto a.name files
              (opened E sha256 u fs available now c)
              (r.0)
              ((r.1).0)
              ((r.1).1)
      unfolding rollback
      after_open-SignedIn crypto a files c l h = go (open_database E sha256 u now fs true c) refl
        where
          go :
              (x : Result (Unit {0}) × Conn E)
              → open_database E sha256 u now fs true c ≡ x
              → let r = after_open crypto a files x in
                SignedIn crypto a.name files (x.1) (r.0) ((r.1).0) ((r.1).1)
          go (err e, d) same = (refl, inl refl)
          go (ok _, d) same =
              login_on-SignedIn crypto a holder (path_of a.name) headless
                (opening_lines a w.has_adapter) files d
                (opened-closed E sha256 u fs available now c d l h same)

      -- `login` of a configured account, with a key that loads, migration files that load, and a
      -- fresh connection. One that ends normally leaves a session that loads, and the database as
      -- opening it leaves it, with the capture recorded on the account's row. One that raises, or
      -- still waits, has changed no row; and it has changed no stored session, or, where it raises,
      -- the account's session is saved. Fernet decrypts what it encrypted with the same key, and JSON loads what
      -- it dumped.
      pub login-SignedIn :
          (crypto : SessionCrypto) (keys : KeyPlace) (name : Text) (config : Config)
          (a : AccountConfig) (files : Files) (c : Conn E)
          → account config name ≡ ok a
          → load_or_create f generated files.keys ≡ (ok crypto, keys)
          → load_migrations u fs ≡ ok available
          → c.pending ≡ none
          → let r =
              login f codec generated E sha256 u accounts now fs path_of w holder headless name
                config files c in
            SignedIn crypto a.name files
              (opened E sha256 u fs available now c)
              (r.0)
              ((r.1).0)
              ((r.1).1)
      unfolding login
      login-SignedIn crypto keys name config a files c e opens l h =
          subst
            (λ r.
              SignedIn crypto a.name files (opened E sha256 u fs available now c) (r.0) ((r.1).0)
                ((r.1).1))
            (sym (go (account config name) (load_or_create f generated files.keys) e opens))
            (after_open-SignedIn crypto a (with_keys keys) c l h)
        where
          with_keys : KeyPlace → Files
          with_keys k = record files { keys = k }

          go :
              (x : Result AccountConfig) (o : Result SessionCrypto × KeyPlace)
              → x ≡ ok a
              → o ≡ (ok crypto, keys)
              → let r : Option Printed × (Files × Conn E) = elim x [
                | err e ↦ (some (record { lines = []; ending = raises e }), (files, c))
                | ok b ↦ elim o.0 [
                  | err e ↦ (some (record { lines = []; ending = raises e }), (with_keys o.1, c))
                  | ok k ↦ after_open k b (with_keys o.1) (open_database E sha256 u now fs true c)
                ]
              ] in
                r ≡ after_open crypto a (with_keys keys) (open_database E sha256 u now fs true c)
          go (err x) o p q = absurd (cc p)
          go (ok b) (err x, k) p q = absurd (cc q)
          go (ok b) (ok k, ks) p q =
              let at : b ≡ a = cc p in
              let by : k ≡ crypto = cc q in
              let stored_in : ks ≡ keys = cc q in
              ap (λ z. after_open k z (with_keys ks) (open_database E sha256 u now fs true c)) at
              ∙ ap (λ z. after_open z a (with_keys ks) (open_database E sha256 u now fs true c)) by
              ∙ ap (λ z. after_open crypto a (with_keys z) (open_database E sha256 u now fs true c))
                  stored_in
