-- ===== src/Cli/Login.antt =====
-- The command `login` of src/pricewatch/cli.py, once the config is loaded.
use pricewatch.Base.{ℕ, Bool, true, Option, some, List, [], ◌∷◌, ◌++◌, Text, codes, if◌then◌else◌}
use mathlib.Core.Option
use pricewatch.Base.Unicode.{Unicode}
use pricewatch.Redaction.Value.{decimal}
use pricewatch.Errors.{Result, ok, err}
use pricewatch.Config.Model.{AccountConfig, Config, account, site_text}
use pricewatch.Db.Files.{Migration, FileEntry}
use pricewatch.Db.Connection.{Engine, Conn, rollback}
use pricewatch.Db.Runner.{open_database}
use pricewatch.Accounts.Table.{record_capture}
use pricewatch.Accounts.Transaction.{Accounts, update_table, stored}
use pricewatch.Session.Stored.{Floats}
use pricewatch.Session.Crypto.{Fernet, SessionCrypto, load_or_create}
use pricewatch.Session.Store.{Codec}
use pricewatch.Commands.Login.{World, LoginResult, run_login, headline}
use pricewatch.Cli.Output.{Line, out, Printed, finished, raises}
use pricewatch.Cli.Session.{Files}

-- What is printed before the browser opens.
unfoldable pub opening_lines : AccountConfig → (has_adapter : Bool) → List Line
unfolding site_text
opening_lines a has_adapter =
    out (codes "Opening a browser for " ++ a.name ++ codes " [" ++ site_text a.site ++ codes "].")
    ∷ (if has_adapter
        then out (codes "Sign in; pricewatch will detect completion and close the window.")
        else out (
            codes "No adapter exists for "
            ++ site_text a.site
            ++ codes " yet, so sign-in cannot be "
            ++ codes "verified automatically. The session will be saved as unverified."))
    ∷ []

abbrev pub next_lines : Text → (verified : Bool) → List Line
next_lines name verified =
    if verified
    then []
    else out (
        codes "  Next: run `pricewatch discover "
        ++ name
        ++ codes "` to record the traffic "
        ++ codes "an adapter needs.")
      ∷ []

module _ {fl : Floats} where
  -- What is printed of the result.
  unfoldable pub result_lines : (name path : Text) → LoginResult fl → List Line
  unfolding decimal headline
  result_lines name path r =
      out (headline fl r)
      ∷ out (codes "  session   " ++ path)
      ∷ out (codes "  cookies   " ++ decimal r.cookie_count)
      ∷ out (codes "  localStorage keys  " ++ decimal r.local_storage_count)
      ∷ next_lines name r.verified

  -- How a login that has not stopped waiting, or has ended, ends the command.
  abbrev pub login_printed : (name path : Text) → List Line → Result (LoginResult fl) → Printed
  login_printed name path before (ok r) = record {
    lines = before ++ result_lines name path r;
    ending = finished;
  }
  login_printed name path before (err e) = record { lines = before; ending = raises e }

  module _ (f : Fernet) (codec : Codec fl) (generated : List ℕ) (E : Engine) (sha256 : Text → Text)
      (u : Unicode) (accounts : Accounts E.Schema) where
    -- `run_login` on the connection. Its UPDATE is that of `_record_capture`, and a result is
    -- verified where the site has an adapter.
    unfoldable pub login_on :
        SessionCrypto
        → AccountConfig
        → World fl
        → (holder : Text) → (headless : Bool) → Files
        → Conn E
        → Option (Result (LoginResult fl)) × (Files × Conn E)
    unfolding run_login update_table site_text
    login_on crypto a w holder headless files c =
        let (updated, c') =
          update_table E accounts (record_capture w.captured_at a.name w.has_adapter) c in
        let (r, place) =
          run_login fl f codec crypto a.name (record w { updated = updated }) holder
            (site_text a.site) headless
            (record { disk = files.disk; table = stored E accounts c }) in
        (r, (record files { disk = place.disk }, elim r [ some (ok _) ↦ c' | _ ↦ c ]))

    -- `login`, with the path that it shows for a session; nothing when it still waits. The
    -- connection is closed however the login ends.
    unfoldable pub login :
        (Migration → Text)
        → List FileEntry
        → (path_of : Text → Text) → World fl
        → (holder : Text) → (headless : Bool) → Text
        → Config
        → Files
        → Conn E
        → Option Printed × (Files × Conn E)
    unfolding account load_or_create open_database login_on rollback opening_lines result_lines
    login now fs path_of w holder headless name config files c = elim (account config name) [
      | err e ↦ (some (record { lines = []; ending = raises e }), (files, c))
      | ok a ↦
          let (opened, keys) = load_or_create f generated files.keys in
          let files' = record files { keys = keys } in
          elim opened [
            | err e ↦ (some (record { lines = []; ending = raises e }), (files', c))
            | ok crypto ↦
                let before = opening_lines a w.has_adapter in
                let (database, c') = open_database E sha256 u now fs true c in
                elim database [
                  | err e ↦
                      (some (record { lines = before; ending = raises e }), (files', rollback E c'))
                  | ok _ ↦
                      let (r, (files'', c'')) = login_on crypto a w holder headless files' c' in
                      (
                        Option.map (login_printed a.name (path_of a.name) before) r,
                        (files'', rollback E c''),
                      )
                ]
          ]
    ]
