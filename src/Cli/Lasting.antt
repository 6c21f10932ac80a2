-- ===== src/Cli/Lasting.antt =====
-- A session that `login` of src/pricewatch/cli.py has captured, and `session status` after other
-- commands.
use mathlib.Core.Option
use mathlib.Core.Option.{some-injective}
use pricewatch.Base.{
  ℕ, ◌≡◌, refl, Bool, false, Option, none, some, List, Text, ap, sym, ◌∙◌, subst, All,
}
use pricewatch.Base.Unicode.{Unicode}
use pricewatch.Errors.{Result, ok, err}
use pricewatch.Config.Model.{AccountConfig, Config, account}
use pricewatch.Config.Names.{Finds, account-Finds}
use pricewatch.Db.Files.{Migration, load_migrations}
use pricewatch.Db.Connection.{Engine, Conn}
use pricewatch.Accounts.Listing.{ItemRow}
use pricewatch.Accounts.Transaction.{Accounts, IsLawful}
use pricewatch.Session.Stored.{Floats, StoredSession, is_probably_stale}
use pricewatch.Session.Summary.{Times, summary}
use pricewatch.Session.Crypto.{Fernet, IsFernet, SessionCrypto, KeyPlace, load_or_create}
use pricewatch.Session.Store.{Codec, IsCodec, load, try_load}
use pricewatch.Commands.Login.{World}
use pricewatch.Commands.Discover.{Tools}
use pricewatch.Cli.Output.{Printed, Ending, finished, exits, raises}
use pricewatch.Cli.Opened.{opened}
use pricewatch.Cli.Session.{Files, stopped, status_of, session_status, session_lines}
use pricewatch.Cli.Login.{login}
use pricewatch.Cli.SignedIn.{SignedIn, EndsSignedIn, login-SignedIn}
use pricewatch.Cli.Runs.{Surroundings, State, Command, touches, login_run, connected, run, run_all}
use pricewatch.Cli.LoginSpared.{login-OnlyOwn}
use pricewatch.Cli.RunsSpared.{AlwaysOpens, run_all-spares}

-- How a command has ended that does not wait.
abbrev pub ending_of : Option Printed → Option Ending
ending_of = Option.map (λ (p : Printed). p.ending)

module _ {fl : Floats} (t : Tools) (f : Fernet) (codec : Codec fl) (E : Engine)
    (sha256 : Text → Text) (u : Unicode) (accounts : Accounts E.Schema)
    (items : E.Schema → List ItemRow) (crypto : SessionCrypto) (name : Text) where
  try_load-ok :
      (files : Files) (s : StoredSession fl)
      → load f codec crypto name files.disk ≡ ok s
      → try_load f codec crypto name files.disk ≡ ok (some s)
  unfolding try_load
  try_load-ok files s h = rw (h, try_load) refl

  named_by : (config : Config) (a : AccountConfig) → account config name ≡ ok a → a.name ≡ name
  named_by config a e = (subst (Finds config name) e (account-Finds config name)).0

  -- `session status` with a session that loads.
  status-shows :
      (times : Times fl) (moment : fl.F) (generated : List ℕ) (config : Config) (a : AccountConfig)
      (files : Files) (s : StoredSession fl)
      → account config name ≡ ok a
      → load_or_create f generated files.keys ≡ (ok crypto, files.keys)
      → load f codec crypto name files.disk ≡ ok s
      → (session_status f codec generated times moment name config files).0 ≡ record {
        lines = session_lines name (summary times s) (is_probably_stale fl moment s);
        ending = finished;
      }
  unfolding session_status try_load status_of
  status-shows times moment generated config a files s e opens loads =
      go (account config name) (load_or_create f generated files.keys) (account-Finds config name) e
        opens
    where
      go :
          (x : Result AccountConfig) (o : Result SessionCrypto × KeyPlace)
          → Finds config name x
          → x ≡ ok a
          → o ≡ (ok crypto, files.keys)
          → let r : Printed × Files = elim x [
            | err e ↦ stopped e files
            | ok b ↦ elim o.0 [
              | err e ↦ stopped e (record files { keys = o.1 })
              | ok k ↦ (
                status_of f codec generated times moment b.name
                    (try_load f codec k b.name files.disk),
                record files { keys = o.1 },
              )
            ]
          ] in
            r.0 ≡ record {
              lines = session_lines name (summary times s) (is_probably_stale fl moment s);
              ending = finished;
            }
      go (err z) o n p q = absurd (cc p)
      go (ok b) (err z, keys) n p q = absurd (cc q)
      go (ok b) (ok k, keys) n p q =
          let by : k ≡ crypto = cc q in
          rw (n.0, by)
            (ap (λ x. status_of f codec generated times moment name x) (try_load-ok files s loads))

  module _ (lawful : IsFernet f) (is_codec : IsCodec fl codec) (law : IsLawful accounts) where
    -- A session that a normal end of `login` leaves.
    ends-Loads :
        (generated : List ℕ) (w : World fl) (n : Text) (files : Files) (c : Conn E)
        (o : Option Printed) (files' : Files) (c' : Conn E)
        → SignedIn f codec generated E sha256 u accounts w crypto n files c o files' c'
        → ending_of o ≡ some finished
        → (s : StoredSession fl) × (load f codec crypto n files'.disk ≡ ok s)
    ends-Loads generated w n files c none files' c' h e = absurd (cc e)
    ends-Loads generated w n files c (some p) files' c' h e = go p.ending h (some-injective _ _ e)
      where
        go :
            (x : Ending)
            → EndsSignedIn f codec generated E sha256 u accounts w crypto n files c x files' c'
            → x ≡ finished
            → (s : StoredSession fl) × (load f codec crypto n files'.disk ≡ ok s)
        go finished h e = h.0
        go (exits m) h e = absurd (cc e)
        go (raises z) h e = absurd (cc e)

    -- A `login` that ends normally, for a configured account, with a key that loads and migration
    -- files that load: after whatever commands run then, one after another, on the same state
    -- directory and database, of which none is a `login` or a `session clear` of this account,
    -- there is a session that loads for it, and `session status`, with any config of this directory
    -- that has the account, ends normally and prints this session's summary. A `discover` among the
    -- commands has no `--out`: its capture goes into the directory of captures, which is apart from
    -- the sessions and the key, and the database is a file of its own. Fernet decrypts what it
    -- encrypted with the same key, and JSON loads what it dumped.
    pub login-lasts :
        (g later : Surroundings) (path_of : Text → Text) (w : World fl) (holder : Text)
        (headless : Bool) (times : Times fl) (moment : fl.F) (a b : AccountConfig)
        (available : List Migration) (runs : List (Surroundings × Command fl)) (s : State E)
        → account g.config name ≡ ok a
        → account later.config name ≡ ok b
        → AlwaysOpens f crypto s.files.keys
        → load_migrations u g.shipped ≡ ok available
        → let c = connected t f codec E sha256 u accounts items g s in
          let r =
            login f codec g.generated E sha256 u accounts g.now g.shipped path_of w holder headless
              name g.config s.files c in
          ending_of r.0 ≡ some finished
          → All (λ q. touches name q.1 ≡ false) runs
          → let first =
              run t f codec E sha256 u accounts items g
                (login_run path_of w holder headless name)
                s in
            let files = (run_all t f codec E sha256 u accounts items runs first).files in
            (kept : StoredSession fl) × (load f codec crypto name files.disk ≡ ok kept)
            × ((session_status f codec later.generated times moment name later.config files).0
                ≡ record {
                  lines =
                      session_lines name (summary times kept) (is_probably_stale fl moment kept);
                  ending = finished;
                })
    unfolding run
    login-lasts g later path_of w holder headless times moment a b available runs s e e' opens l
          ends h =
        let c = connected t f codec E sha256 u accounts items g s in
        let r =
          login f codec g.generated E sha256 u accounts g.now g.shipped path_of w holder headless
            name g.config s.files c in
        let signed =
          login-SignedIn f codec g.generated E sha256 u accounts w lawful is_codec law g.shipped
            available g.now path_of holder headless crypto s.files.keys name g.config a s.files c e
            (opens g.generated) l refl in
        let (kept, loads) =
          ends-Loads g.generated w a.name s.files (opened E sha256 u g.shipped available g.now c)
            r.0 r.1.0 r.1.1 signed ends in
        let (stays, _) =
          login-OnlyOwn f codec g.generated crypto name E sha256 u accounts w lawful is_codec g.now
            g.shipped path_of holder headless name g.config s.files c (opens g.generated) in
        let named = named_by g.config a e in
        let first =
          run t f codec E sha256 u accounts items g (login_run path_of w holder headless name) s in
        let open_first = subst (AlwaysOpens f crypto) (sym stays) opens in
        let (stay, same) =
          run_all-spares t f codec E sha256 u accounts items crypto name lawful is_codec runs first
            h open_first in
        let files = (run_all t f codec E sha256 u accounts items runs first).files in
        let open_last = subst (AlwaysOpens f crypto) (sym stay) open_first in
        let last : load f codec crypto name files.disk ≡ ok kept =
          same ∙ subst (λ m. load f codec crypto m first.files.disk ≡ ok kept) named loads in
        (
          kept,
          last,
          status-shows times moment later.generated later.config b files kept e'
              (open_last later.generated) last,
        )
