-- ===== src/Resilience.antt =====
-- src/vortex_ai_gateway/resilience.py: the retry budget, the retry policy and the circuit breaker.
-- Durations and clock readings are whole milliseconds.
pub mod Budget
pub mod Policy
pub mod Breaker
mod Tests
