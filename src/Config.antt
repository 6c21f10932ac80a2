-- ===== src/Config.antt =====
-- src/pricewatch/config.py: the configuration model, its validation and its loader.
pub mod Fields
pub mod Secret
pub mod Model
pub mod Raw
pub mod Load
pub mod Names
pub mod Valid
pub mod Loaded
mod Tests
