-- ===== src/Accounts/Listing.antt =====
-- `list_accounts` of src/pricewatch/accounts.py, with the count of the items that are tracked, and
-- `AccountState.needs_attention`.
use mathlib.Core.List.{Perm}
use pricewatch.Base.{
  ℕ, ◌≡◌, refl, Bool, true, false, ◌&&◌, Option, List, [], ◌∷◌, Text, text_le, text_le_total,
  text_le_trans, map, ◌==◌, length, filter, not, is_some, All,
}
use pricewatch.Base.Sort.{sort, sort-perm, sort-IsSorted, IsSorted}
use pricewatch.Config.Model.{SiteId}
use pricewatch.Accounts.Table.{AccountRow, Table, Status, needs_reauth, degraded, ExecMode}

-- The columns of `items` that the count reads.
pub record ItemRow : Type 0 where
  pub account_id : ℕ
  pub removed_at : Option Text

pub record AccountState : Type 0 where
  pub id : ℕ
  pub name : Text
  pub site : SiteId
  pub enabled : Bool
  pub status : Status
  pub last_ok_at : Option Text
  pub last_error : Option Text
  pub consecutive_failures : ℕ
  pub last_exec_mode : Option ExecMode
  pub tracked_items : ℕ

-- `AccountState.needs_attention`
unfoldable pub needs_attention : AccountState → Bool
needs_attention s = s.enabled && elim s.status [ needs_reauth ↦ true | degraded ↦ true | _ ↦ false ]

-- `SELECT COUNT(*) FROM items i WHERE i.account_id = a.id AND i.removed_at IS NULL`
unfoldable pub count_items : List ItemRow → ℕ → ℕ
count_items items id =
    length (filter (λ i. (i.account_id == id) && not (is_some i.removed_at)) items)

unfoldable pub state_of : List ItemRow → AccountRow → AccountState
unfolding count_items
state_of items r = record {
  id = r.id;
  name = r.name;
  site = r.site;
  enabled = r.enabled;
  status = r.status;
  last_ok_at = r.last_ok_at;
  last_error = r.last_error;
  consecutive_failures = r.consecutive_failures;
  last_exec_mode = r.last_exec_mode;
  tracked_items = count_items items r.id;
}

abbrev pub name_le : AccountRow → AccountRow → Bool
name_le a b = text_le a.name b.name

-- `ORDER BY a.name`
unfoldable pub list_accounts : List ItemRow → Table → List AccountState
unfolding state_of sort
list_accounts items rs = map (state_of items) (sort name_le rs)

-- The names rise from each state to every later one.
abbrev pub ByName : List AccountState → Type 0
ByName [] = Unit
ByName (s ∷ ss) = All (λ t. text_le s.name t.name ≡ true) ss × ByName ss

All-state_of :
    (items : List ItemRow) (r : AccountRow) (rs : Table)
    → All (λ q. name_le r q ≡ true) rs
    → All (λ t. text_le r.name t.name ≡ true) (map (state_of items) rs)
unfolding state_of
All-state_of items r [] h = tt
All-state_of items r (q ∷ rs) h = (h.0, All-state_of items r rs h.1)

ByName-of :
    (items : List ItemRow) (rs : Table) → IsSorted name_le rs → ByName (map (state_of items) rs)
unfolding state_of
ByName-of items [] h = tt
ByName-of items (r ∷ rs) h = (All-state_of items r rs h.0, ByName-of items rs h.1)

-- The list holds the state of each row of the table, as many times as it stands there, in the
-- order of the names.
list_accounts-ByName :
    (items : List ItemRow) (rs : Table)
    → ByName (list_accounts items rs)
      × ((sorted : Table) × (list_accounts items rs ≡ map (state_of items) sorted) × Perm sorted rs)
unfolding list_accounts
list_accounts-ByName items rs = (
  ByName-of items (sort name_le rs) (
      sort-IsSorted name_le (λ a b. text_le_total a.name b.name)
        (λ a b c. text_le_trans a.name b.name c.name) rs),
  (sort name_le rs, refl, sort-perm name_le rs),
)
