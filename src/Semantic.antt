-- ===== src/Semantic.antt =====
-- The semantic cache: src/vortex_ai_gateway/semantic.py.
pub mod Nearest
pub mod Index
pub mod Cache
mod Tests
