-- ===== src/Accounts/Tests.antt =====
-- The table of accounts through a sync, and the theorems at it.
use pricewatch.Base.{
  ℕ, ◌≡◌, refl, true, false, none, some, List, [], ◌∷◌, Text, codes, arith, text_eq, ap, mem,
}
use pricewatch.Config.Model.{AccountConfig, asos, freepeople, find_account}
use pricewatch.Config.Names.{Nodup, names}
use pricewatch.Db.Connection.{Engine, Conn}
use pricewatch.Accounts.Table.{AccountRow, Table, ok, needs_reauth, find, upsert}
use pricewatch.Accounts.Sync.{sync_table, upsert_all}
use pricewatch.Accounts.Synced.{Synced, sync_table-Synced}
use pricewatch.Accounts.Unique.{identities}
use pricewatch.Accounts.Transaction.{Accounts, sync_accounts, SyncsOrNot, sync_accounts-SyncsOrNot}

abbrev first_code : Text → ℕ
first_code [] = 0
first_code (c ∷ t) = c

abbrev now : Text
now = codes "2026-01-01"

abbrev asos_uk : AccountConfig
asos_uk = record { name = codes "asos-uk"; site = asos; enabled = true; home_url = none }

abbrev fp : AccountConfig
fp = record { name = codes "fp"; site = freepeople; enabled = false; home_url = none }

abbrev old_row : AccountRow
old_row = record {
  id = 4;
  name = codes "old";
  site = asos;
  enabled = true;
  status = needs_reauth;
  last_ok_at = none;
  last_error = some (codes "x");
  consecutive_failures = 3;
  last_exec_mode = none;
  created_at = now;
  session_captured_at = none;
}

abbrev fp_row : AccountRow
fp_row = record old_row { id = 2; name = codes "fp"; status = ok; enabled = true }

abbrev table : Table
table = old_row ∷ fp_row ∷ []

abbrev configured : List AccountConfig
configured = asos_uk ∷ fp ∷ []

configured-Nodup : Nodup (names configured)
configured-Nodup = ((λ e. omega (arith, ap first_code e), tt), (tt, tt))

sync_ids :
    identities (sync_table now configured table)
    ≡ (4, codes "old") ∷ (2, codes "fp") ∷ (5, codes "asos-uk") ∷ []
unfolding sync_table text_eq upsert_all upsert mem
sync_ids = refl

sync_table-Synced_example :
    Synced now
      (find_account (codes "fp") configured)
      (find (codes "fp") table)
      (find (codes "fp") (sync_table now configured table))
sync_table-Synced_example = sync_table-Synced now (codes "fp") configured table configured-Nodup

-- A database whose schema is the table itself.
abbrev engine : Engine
engine = record { Schema = Table; exec = λ sql s. (s, true); commits = λ s. true }

abbrev whole : Accounts Table
whole = record { read = λ t. t; write = λ t s. t; refuses = λ t s. false }

abbrev conn : Conn engine
conn = record {
  committed = record { schema = table; recorded = none };
  pending = none;
  locked = false;
}

sync_accounts-SyncsOrNot_example :
    SyncsOrNot engine whole now configured conn (sync_accounts engine whole now configured conn)
sync_accounts-SyncsOrNot_example =
    sync_accounts-SyncsOrNot engine whole now configured conn (λ t s. refl)
