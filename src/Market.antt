-- ===== src/Market.antt =====
-- include/low_latency_exchange/market_data.hpp and src/market_data.cpp: the feed that the matching
-- thread publishes, and the book that a subscriber builds of it.
pub mod Types
pub mod Feed
pub mod Subscriber
pub mod InStep
pub mod Delivery
pub mod Publishing
pub mod Draining
mod Tests
