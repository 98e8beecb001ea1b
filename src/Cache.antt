-- ===== src/Cache.antt =====
-- The response cache of src/vortex_ai_gateway/cache.py.
pub mod Ttls
pub mod Store
pub mod Keys
pub mod Hits
pub mod Again
mod Tests
