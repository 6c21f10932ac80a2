-- ===== src/Session.antt =====
-- src/pricewatch/session: stored sessions, their encryption and files, and the profile lock.
pub mod Stored
pub mod Expiry
pub mod Summary
pub mod Tree
pub mod Removed
pub mod Crypto
pub mod Keys
pub mod Store
pub mod Files
pub mod Stages
pub mod Saved
pub mod Json
pub mod Envelope
pub mod Deleted
pub mod Vault
pub mod Savers
pub mod Acted
pub mod Interleaved
pub mod Lock
pub mod Samples
pub mod JsonSamples
mod Tests
mod SaverTests
