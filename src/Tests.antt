-- ===== src/Tests.antt =====
-- The theorems at concrete inputs.
pub mod Streams
pub mod Receiving
pub mod Sending
pub mod Connections
pub mod Routing
pub mod Formats
pub mod Links
pub mod Delivering
pub mod Forwarding
pub mod Wires
