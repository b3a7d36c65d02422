-- ===== src/Telemetry.antt =====
-- services/gateway/internal/telemetry: the carrier of trace headers, the start and the stop of the
-- providers, the fan-out of log records, and the instruments that fall back to no-ops.
pub mod Carrier
pub mod Setup
pub mod Fanout
pub mod Instruments
