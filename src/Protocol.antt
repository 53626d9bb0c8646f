-- ===== src/Protocol.antt =====
-- include/low_latency_exchange/protocol.hpp: the header and the events of the wire protocol, the
-- sizes of the payloads. An enum over a fixed integer can hold each of its values, named or not, and
-- is that integer.
pub mod MessageTypes
pub mod ErrorCodes
pub mod Codes
pub mod Bytes
pub mod Header
pub mod Commands
pub mod Events
pub mod HeaderTrip
pub mod CommandTrip
pub mod EventTrip
mod Tests
