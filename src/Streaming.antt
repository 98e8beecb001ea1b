-- ===== src/Streaming.antt =====
-- Streamed answers: src/vortex_ai_gateway/streaming.py.
pub mod Record
pub mod Relay
mod Tests
