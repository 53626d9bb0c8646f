-- ===== src/Gateway.antt =====
-- The sessions and the gateway of src/tcp_gateway.cpp: frames, what is read, what is written.
pub mod Serialize
pub mod Frames
pub mod Session
pub mod Admitted
pub mod Reading
pub mod Writing
pub mod Poll
pub mod Delivery
mod Tests
