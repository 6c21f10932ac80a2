-- ===== src/Cli/Session.antt =====
-- The commands `session status` and `session clear` of src/pricewatch/cli.py, once the config is
-- loaded.
use pricewatch.Base.{
  ℕ, Bool, true, ◌||◌, not, Option, none, some, List, [], ◌∷◌, ◌++◌, Text, codes, if◌then◌else◌,
}
use pricewatch.Base.Unicode.{Unicode}
use pricewatch.Redaction.Value.{decimal}
use pricewatch.Errors.{Error, Result, ok, err, other}
use pricewatch.Config.Model.{Config, account}
use pricewatch.Db.Files.{Migration, FileEntry}
use pricewatch.Db.Connection.{Engine, Conn, rollback}
use pricewatch.Db.Runner.{open_database}
use pricewatch.Accounts.Table.{forget_session}
use pricewatch.Accounts.Transaction.{Accounts, update_table}
use pricewatch.Session.Stored.{Floats, StoredSession, is_probably_stale}
use pricewatch.Session.Summary.{Times, SessionSummary, summary}
use pricewatch.Session.Crypto.{Fernet, KeyPlace, SessionCrypto, load_or_create}
use pricewatch.Session.Tree.{Tree}
use pricewatch.Session.Files.{Disk}
use pricewatch.Session.Store.{Codec, try_load, delete}
use pricewatch.Cli.Output.{Line, out, Printed, finished, exits, raises, join_comma, or_text}

-- The files of the state directory that belong to sessions.
pub record Files : Type 0 where
  pub keys : KeyPlace
  pub disk : Disk
  pub tree : Tree

abbrev pub stale_lines : Bool → List Line
stale_lines stale =
    if stale
    then out (
        codes "  Every persistent cookie has passed its expiry. That is a hint, not a "
        ++ codes "verdict: only a fetch can tell you whether the site still accepts it.")
      ∷ []
    else []

abbrev pub time_or : Option Text → Text → Text
time_or none default = default
time_or (some t) default = or_text t default

-- What `session status` prints of a session.
unfoldable pub session_lines : Text → SessionSummary → Bool → List Line
unfolding decimal join_comma
session_lines name s stale =
    out (codes "session for " ++ name)
    ∷ out (codes "  captured        " ++ s.session_captured_at)
    ∷ out (
        codes "  cookies         "
        ++ decimal s.cookie_count
        ++ codes " ("
        ++ join_comma s.names
        ++ codes ")")
    ∷ out (codes "  origins         " ++ or_text (join_comma s.origins) (codes "-"))
    ∷ out (codes "  localStorage    " ++ or_text (join_comma s.storage_keys) (codes "-"))
    ∷ out
        (codes "  earliest expiry " ++ time_or s.session_expires_at (codes "session cookies only"))
    ∷ stale_lines stale

abbrev pub stopped : {S : Type 0} → Error → S → Printed × S
stopped e s = (record { lines = []; ending = raises e }, s)

module _ {fl : Floats} (f : Fernet) (codec : Codec fl) (generated : List ℕ) where
  -- What `session status` does once the store is open.
  unfoldable pub status_of : Times fl → fl.F → Text → Result (Option (StoredSession fl)) → Printed
  unfolding summary is_probably_stale session_lines
  status_of times moment name (err e) = record { lines = []; ending = raises e }
  status_of times moment name (ok none) = record {
    lines =
        out (
          codes "no stored session for "
          ++ name
          ++ codes "; run `pricewatch login "
          ++ name
          ++ codes "`")
        ∷ [];
    ending = exits 1;
  }
  status_of times moment name (ok (some s)) = record {
    lines = session_lines name (summary times s) (is_probably_stale fl moment s);
    ending = finished;
  }

  -- `session status`
  unfoldable pub session_status : Times fl → fl.F → Text → Config → Files → Printed × Files
  unfolding account load_or_create try_load status_of
  session_status times moment name config files = elim (account config name) [
    | err e ↦ stopped e files
    | ok a ↦
        let (opened, keys) = load_or_create f generated files.keys in
        let files' = record files { keys = keys } in
        elim opened [
          | err e ↦ stopped e files'
          | ok crypto ↦
              (status_of times moment a.name (try_load f codec crypto a.name files'.disk), files')
        ]
  ]

  module _ (E : Engine) (sha256 : Text → Text) (u : Unicode) (accounts : Accounts E.Schema) where
    -- The UPDATE of `session clear`, and the end of the command.
    unfoldable pub forget_row : Text → Conn E → Printed × Conn E
    unfolding update_table forget_session rollback
    forget_row name c =
        let (r, c') = update_table E accounts (forget_session name) c in
        (
          elim r [
            | err e ↦ record { lines = []; ending = raises e }
            | ok _ ↦ record {
              lines = out (codes "cleared session for " ++ name) ∷ [];
              ending = finished;
            }
          ],
          rollback E c',
        )

    -- `session clear` behind the deletion.
    unfoldable pub clear_row :
        (Migration → Text) → List FileEntry → Text → Conn E → Printed × Conn E
    unfolding open_database forget_row rollback
    clear_row now fs name c =
        let (r, c') = open_database E sha256 u now fs true c in
        elim r [ err e ↦ stopped e (rollback E c') | ok _ ↦ forget_row name c' ]

    -- The deletion. What is left of a profile whose removal raises is not modelled.
    unfoldable pub clear_files :
        (Migration → Text)
        → List FileEntry
        → SessionCrypto
        → Text
        → Files
        → Conn E
        → Printed × (Files × Conn E)
    unfolding delete clear_row
    clear_files now fs crypto name files c =
        let (disk, left) = delete f codec crypto name (files.disk, files.tree) in
        elim left [
          | none ↦ stopped other (record files { disk = disk }, c)
          | some tree ↦
              let (p, c') = clear_row now fs name c in
              (p, (record files { disk = disk; tree = tree }, c'))
        ]

    -- `session clear`, with the option `--yes` and the operator's reply.
    unfoldable pub session_clear :
        (Migration → Text)
        → List FileEntry
        → Bool
        → Bool
        → Text
        → Config
        → Files
        → Conn E
        → Printed × (Files × Conn E)
    unfolding account load_or_create clear_files
    session_clear now fs agreed confirmed name config files c = elim (account config name) [
      | err e ↦ stopped e (files, c)
      | ok a ↦
          let (opened, keys) = load_or_create f generated files.keys in
          let files' = record files { keys = keys } in
          elim opened [
            | err e ↦ stopped e (files', c)
            | ok crypto ↦
                if not (agreed || confirmed)
                then (
                  record { lines = out (codes "cancelled") ∷ []; ending = exits 1 },
                  (files', c),
                )
                else clear_files now fs crypto a.name files' c
          ]
    ]
