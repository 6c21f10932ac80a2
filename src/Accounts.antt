-- ===== src/Accounts.antt =====
-- src/pricewatch/accounts.py: the rows of `accounts`, `sync_accounts` and `list_accounts`, with the
-- statements of other files that write to the table.
pub mod Table
pub mod Sync
pub mod Synced
pub mod Unique
pub mod Listing
pub mod Health
pub mod Transaction
mod Tests
