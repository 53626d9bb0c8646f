-- ===== src/Book.antt =====
-- src/order_book.cpp and include/low_latency_exchange/order_book.hpp.
pub mod State
pub mod Match
pub mod Edit
pub mod Commands
pub mod Fill
pub mod Queue
pub mod Index
pub mod Levels
pub mod Valid
pub mod Query
pub mod History
pub mod Walk
pub mod Refines
pub mod Trades
mod Tests
