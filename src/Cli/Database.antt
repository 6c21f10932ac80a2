-- ===== src/Cli/Database.antt =====
-- The commands `init`, `db version`, `db upgrade` and `accounts` of src/pricewatch/cli.py, once the
-- config is loaded. A command works on the connection that `connect` returns, and closes it at the
-- end; where it raises, the process ends and closes it.
use pricewatch.Base.{
  zero, suc, ℕ, ◌-◌, true, Option, none, some, List, [], ◌∷◌, ◌++◌, Text, codes, length, map, ltb,
  if◌then◌else◌,
}
use pricewatch.Base.Unicode.{Unicode}
use pricewatch.Redaction.Value.{decimal}
use pricewatch.Errors.{Result, ok, err}
use pricewatch.Config.Model.{site_text, Config, db_path}
use pricewatch.Db.Files.{Migration, FileEntry, latest_available_version}
use pricewatch.Db.Connection.{Engine, Conn, rollback}
use pricewatch.Db.Runner.{migrate, open_database, current_version}
use pricewatch.Accounts.Table.{Status, ExecMode}
use pricewatch.Accounts.Listing.{ItemRow, AccountState, needs_attention, list_accounts}
use pricewatch.Accounts.Transaction.{Accounts, sync_accounts, stored}
use pricewatch.Cli.Output.{
  Line, out, note, Printed, finished, raises, or_text, pad_left, pad_right, spaces,
}

abbrev pub zeros : ℕ → Text
zeros zero = []
zeros (suc n) = b'0' ∷ zeros n

-- `{version:03d}`
unfoldable pub version_text : ℕ → Text
unfolding decimal
version_text n = zeros (3 - length (decimal n)) ++ decimal n

abbrev pub printed : List Line → Printed
printed lines = record { lines = lines; ending = finished }

unfoldable pub status_text : Status → Text
status_text Status.unknown = codes "unknown"
status_text Status.ok = codes "ok"
status_text Status.needs_reauth = codes "needs_reauth"
status_text Status.degraded = codes "degraded"

abbrev pub mode_text : Option ExecMode → Text
mode_text none = codes "-"
mode_text (some ExecMode.browser) = codes "browser"
mode_text (some ExecMode.http) = codes "http"

-- `text or default`, of a column that may be NULL
abbrev pub column_or : Option Text → Text → Text
column_or none default = default
column_or (some t) default = or_text t default

abbrev pub error_note : AccountState → List Line
error_note s = elim s.last_error [
  | none ↦ []
  | some [] ↦ []
  | some (c ∷ t) ↦
      if needs_attention s then out (spaces 20 ++ codes " last error: " ++ (c ∷ t)) ∷ [] else []
]

-- The lines of one account.
unfoldable pub state_lines : AccountState → List Line
unfolding status_text site_text decimal needs_attention
state_lines s =
    out (
      pad_right 20 s.name
      ++ codes " "
      ++ pad_right 12 (site_text s.site)
      ++ codes " "
      ++ pad_right 14 (if s.enabled then status_text s.status else codes "disabled")
      ++ codes " "
      ++ pad_right 8 (mode_text s.last_exec_mode)
      ++ codes " "
      ++ pad_left 5 (decimal s.tracked_items)
      ++ codes "  "
      ++ column_or s.last_ok_at (codes "never"))
    ∷ error_note s

abbrev pub all_state_lines : List AccountState → List Line
all_state_lines [] = []
all_state_lines (s ∷ ss) = state_lines s ++ all_state_lines ss

-- `ACCOUNT              SITE         STATUS         MODE     ITEMS  LAST OK`
abbrev pub header : Text
header =
    pad_right 20 (codes "ACCOUNT")
    ++ codes " "
    ++ pad_right 12 (codes "SITE")
    ++ codes " "
    ++ pad_right 14 (codes "STATUS")
    ++ codes " "
    ++ pad_right 8 (codes "MODE")
    ++ codes " "
    ++ pad_left 5 (codes "ITEMS")
    ++ codes "  LAST OK"

unfoldable pub account_table : List AccountState → List Line
unfolding state_lines
account_table [] = out (codes "No accounts configured.") ∷ []
account_table (s ∷ ss) = out header ∷ all_state_lines (s ∷ ss)

-- What a call gives, passed on, or the exception that ends the command.
abbrev pub then_print : {S A : Type 0} → Result A × S → (A → S → Printed × S) → Printed × S
then_print (ok a, c) k = k a c
then_print (err e, c) k = (record { lines = []; ending = raises e }, c)

-- What `init` and `db upgrade` print of the migrations that they have applied.
abbrev pub applied_lines : (prefix none_applied : Text) → List Migration → List Line
applied_lines prefix none_applied [] = out none_applied ∷ []
applied_lines prefix none_applied (m ∷ ms) =
    map (λ (m : Migration). out (prefix ++ version_text m.version ++ codes "_" ++ m.name)) (m ∷ ms)

unfoldable pub pending_lines : ℕ → ℕ → List Line
unfolding decimal
pending_lines applied latest =
    out (decimal applied)
    ∷ (if ltb applied latest
        then note (
            decimal (latest - applied)
            ++ codes " migration(s) pending (latest is "
            ++ decimal latest
            ++ codes "); run `pricewatch db upgrade`")
          ∷ []
        else [])

module _ (E : Engine) (sha256 : Text → Text) (u : Unicode) where
  -- `conn.close()`, at the latest by the end of the process
  abbrev pub close : Printed × Conn E → Printed × Conn E
  close (p, c) = (p, rollback E c)

  -- `db upgrade`
  unfoldable pub db_upgrade : (Migration → Text) → List FileEntry → Conn E → Printed × Conn E
  unfolding migrate rollback version_text
  db_upgrade now fs c = close (
      then_print (migrate E sha256 u now fs c) λ applied c'.
        (printed (applied_lines (codes "applied ") (codes "already up to date") applied), c'))

  -- `db version`; the listing is read once the connection is closed.
  unfoldable pub db_version : List FileEntry → Conn E → Printed × Conn E
  unfolding current_version latest_available_version rollback pending_lines
  db_version fs c = close (
      then_print (current_version E c) λ applied c'.
        then_print (latest_available_version u fs, c')
          λ latest c''. (printed (pending_lines applied latest), c''))

  module _ (accounts : Accounts E.Schema) (items : E.Schema → List ItemRow) where
    -- `init`, behind the making of the state directory
    unfoldable pub init :
        (Migration → Text) → Text → List FileEntry → Config → Conn E → Printed × Conn E
    unfolding migrate sync_accounts rollback db_path decimal version_text
    init now synced_at fs config c = close (
        then_print (migrate E sha256 u now fs c) λ applied c'.
          then_print (sync_accounts E accounts synced_at config.accounts c') λ _ c''. (
            printed (
                out (codes "database  " ++ db_path config)
                ∷ (applied_lines (codes "  applied ") (codes "  schema already up to date") applied
                    ++ (out (
                          codes "  "
                          ++ decimal (length config.accounts)
                          ++ codes " account(s) synced")
                        ∷ []))),
            c'',
          ))

    -- `accounts`
    unfoldable pub accounts_cmd :
        (Migration → Text) → Text → List FileEntry → Config → Conn E → Printed × Conn E
    unfolding open_database sync_accounts rollback list_accounts account_table
    accounts_cmd now synced_at fs config c = close (
        then_print (open_database E sha256 u now fs true c) λ _ c'.
          then_print (sync_accounts E accounts synced_at config.accounts c') λ _ c''. (
            printed (
                account_table (list_accounts (items c''.committed.schema) (stored E accounts c''))),
            c'',
          ))
