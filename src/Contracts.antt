-- ===== src/Contracts.antt =====
-- src/vortex_ai_gateway/contracts: what the modelled code reads of a request and of an answer.
pub mod Chat
pub mod Messages
pub mod Json
