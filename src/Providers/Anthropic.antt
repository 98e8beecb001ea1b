-- ===== src/Providers/Anthropic.antt =====
-- The adapter of src/vortex_ai_gateway/providers/anthropic.py.
pub mod Turns
pub mod Parameters
pub mod Stream
pub mod Rounds
pub mod Steps
pub mod Ordinals
pub mod Alternate
mod Tests
