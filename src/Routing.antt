-- ===== src/Routing.antt =====
-- Which provider serves a model: src/vortex_ai_gateway/routing.py.
pub mod Table
pub mod Router
pub mod Build
mod Tests
