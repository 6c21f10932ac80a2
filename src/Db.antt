-- ===== src/Db.antt =====
-- src/pricewatch/db/__init__.py: connections, transactions and forward-only migrations.
pub mod Files
pub mod Connection
pub mod Runner
pub mod Atomic
pub mod Records
pub mod Recorded
pub mod Complete
pub mod Progress
pub mod Migrate
pub mod Order
pub mod Refusal
pub mod Processes
pub mod Built
pub mod Moved
pub mod Interleaved
pub mod Advances
pub mod Ends
mod Tests
mod ProcessTests
