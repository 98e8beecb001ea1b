-- ===== src/Auth.antt =====
-- Who calls: src/vortex_ai_gateway/keys.py and src/vortex_ai_gateway/auth.py.
pub mod Identity
pub mod Keys
pub mod Access
mod Tests
