-- ===== src/Accounts/Table.antt =====
-- The table `accounts` of src/pricewatch/db/migrations, and the statements on it: those of
-- `sync_accounts` in accounts.py, of `_record_capture` in commands/login.py and of `session clear`
-- in cli.py.
use pricewatch.Base.{
  ℕ, ◌+◌, Bool, true, false, Option, none, some, List, [], ◌∷◌, Text, text_eq, map, mem, max,
  if◌then◌else◌,
}
use pricewatch.Config.Model.{SiteId, AccountConfig}

-- The values that the CHECK of `status` admits.
pub data Status : Type 0 where
  unknown ok needs_reauth degraded : Status

-- The values that the CHECK of `last_exec_mode` admits.
pub data ExecMode : Type 0 where
  browser http : ExecMode

pub record AccountRow : Type 0 where
  pub id : ℕ
  pub name : Text
  pub site : SiteId
  pub enabled : Bool
  pub status : Status
  pub last_ok_at : Option Text
  pub last_error : Option Text
  pub consecutive_failures : ℕ
  pub last_exec_mode : Option ExecMode
  pub created_at : Text
  pub session_captured_at : Option Text

abbrev pub Table : Type 0
Table = List AccountRow

unfoldable pub max_id : Table → ℕ
max_id [] = 0
max_id (r ∷ rs) = max r.id (max_id rs)

-- A row that INSERT makes: the columns not given have their defaults.
unfoldable pub new_row : Text → ℕ → AccountConfig → AccountRow
new_row now id a = record {
  id = id;
  name = a.name;
  site = a.site;
  enabled = a.enabled;
  status = unknown;
  last_ok_at = none;
  last_error = none;
  consecutive_failures = 0;
  last_exec_mode = none;
  created_at = now;
  session_captured_at = none;
}

-- `DO UPDATE SET site = excluded.site, enabled = excluded.enabled`
abbrev pub set_config : AccountConfig → AccountRow → AccountRow
set_config a r = record r { site = a.site; enabled = a.enabled }

-- `INSERT … ON CONFLICT (name) DO UPDATE`, where a new row would have this id. The name is unique,
-- so at most one row is updated.
unfoldable pub upsert_at : Text → ℕ → AccountConfig → Table → Table
unfolding new_row
upsert_at now id a [] = new_row now id a ∷ []
upsert_at now id a (r ∷ rs) =
    if text_eq r.name a.name then set_config a r ∷ rs else r ∷ upsert_at now id a rs

-- A new `INTEGER PRIMARY KEY` is one more than the largest.
unfoldable pub upsert : Text → AccountConfig → Table → Table
unfolding upsert_at max_id
upsert now a rs = upsert_at now (max_id rs + 1) a rs

-- `UPDATE accounts SET enabled = 0 WHERE name NOT IN (…)`
unfoldable pub disable_except : List Text → Table → Table
disable_except names = map (λ r. if mem r.name names then r else record r { enabled = false })

-- `UPDATE accounts SET enabled = 0`
unfoldable pub disable_all : Table → Table
disable_all = map (λ (r : AccountRow). record r { enabled = false })

-- `UPDATE accounts SET … WHERE name = ?`
unfoldable pub update_where : Text → (AccountRow → AccountRow) → Table → Table
update_where name f = map (λ r. if text_eq r.name name then f r else r)

-- The row that `_record_capture` makes.
unfoldable pub captured : Text → Bool → AccountRow → AccountRow
captured now true r = record r {
  session_captured_at = some now;
  status = ok;
  consecutive_failures = 0;
  last_error = none;
}
captured now false r = record r { session_captured_at = some now }

-- `_record_capture`
unfoldable pub record_capture : Text → Text → Bool → Table → Table
record_capture now account verified = update_where account (captured now verified)

-- The row that `session clear` makes.
unfoldable pub forgotten : AccountRow → AccountRow
forgotten r = record r { session_captured_at = none; status = needs_reauth }

-- The UPDATE of `session clear`.
unfoldable pub forget_session : Text → Table → Table
forget_session account = update_where account forgotten

-- The row of a name.
unfoldable pub find : Text → Table → Option AccountRow
find name [] = none
find name (r ∷ rs) = if text_eq r.name name then some r else find name rs
