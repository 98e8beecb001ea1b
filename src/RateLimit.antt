-- ===== src/RateLimit.antt =====
-- src/vortex_ai_gateway/ratelimit.py: the two Lua scripts, and the limiter that calls them.
pub mod Redis
pub mod Bucket
pub mod Script
pub mod Limiter
pub mod Estimate
mod Tests
