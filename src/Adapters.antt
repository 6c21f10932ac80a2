-- ===== src/Adapters.antt =====
-- src/pricewatch/adapters: the results an adapter may give, the registry, and the known sites.
pub mod Results
pub mod Registry
pub mod Sites
mod Tests
