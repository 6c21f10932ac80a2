-- ===== src/Cli.antt =====
-- src/pricewatch/cli.py: what the commands do and print, and how they end.
pub mod Output
pub mod Context
pub mod Login
pub mod SignedIn
pub mod Discover
pub mod Check
pub mod Checked
pub mod Database
pub mod Maintained
pub mod Opened
pub mod Session
pub mod Cleared
pub mod Initialised
pub mod Kept
pub mod Runs
pub mod Spared
pub mod ClearSpared
pub mod LoginSpared
pub mod RunsSpared
pub mod Lasting
pub mod ClearKept
pub mod LoginKept
pub mod RunsKept
mod Samples
mod Tests
mod RunTests
