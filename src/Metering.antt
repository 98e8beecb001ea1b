-- ===== src/Metering.antt =====
-- `Meter` of src/vortex_ai_gateway/metering.py: admission before the provider is called, and settlement
-- after.
pub mod Meter
pub mod Settle
mod Tests
