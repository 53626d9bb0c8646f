-- ===== src/Engine.antt =====
-- The matching engine service of include/low_latency_exchange/tcp_gateway.hpp and
-- src/tcp_gateway.cpp.
pub mod Types
pub mod Outbound
pub mod Handlers
pub mod Process
pub mod Delivered
pub mod Replies
pub mod Expected
pub mod Answers
pub mod Service
pub mod Owners
pub mod Resting
pub mod Kept
pub mod Owned
pub mod Steps
pub mod Batch
mod Tests
