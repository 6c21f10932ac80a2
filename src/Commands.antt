-- ===== src/Commands.antt =====
-- src/pricewatch/commands: what `pricewatch login` does.
pub mod Login
pub mod Outcome
pub mod Others
pub mod Discover
pub mod Discovered
pub mod Ends
mod Tests
