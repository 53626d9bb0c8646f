-- ===== src/EventLog.antt =====
-- include/low_latency_exchange/event_log.hpp and src/event_log.cpp: the log of accepted commands.
pub mod Types
pub mod Stream
pub mod Words
pub mod Format
pub mod Capture
pub mod Apply
pub mod Payload
pub mod Record
pub mod Replay
pub mod Journal
pub mod Recovery
pub mod Cut
pub mod Truncation
mod Tests
