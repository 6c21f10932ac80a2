-- ===== src/Redaction.antt =====
-- src/pricewatch/redaction.py: the scrubbing of keys, of texts and of nested values.
pub mod Keys
pub mod Matcher
pub mod Patterns
pub mod Value
pub mod Preserved
pub mod Scrubbed
pub mod Shape
mod Tests
