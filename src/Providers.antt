-- ===== src/Providers.antt =====
-- src/vortex_ai_gateway/providers: the failures of a provider, and the wrappers that retry and hop.
pub mod Errors
pub mod Resilient
pub mod Fallback
pub mod Http
pub mod Anthropic
mod Tests
