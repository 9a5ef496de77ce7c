-- ===== src/Services.antt =====
-- The ways to provide and to use services: service_handler.rs, relay_map.rs, pub_sub.rs and the
-- module that service_map_macro.rs generates.
pub mod Address
pub mod Relay
pub mod PubSub
pub mod Local
pub mod Remote
pub mod Callers
pub mod Sends
pub mod ThroughRelay
pub mod Responses
pub mod Broadcast
pub mod Safety
pub mod Requests
pub mod EndToEnd
pub mod OverWire
pub mod Contract
pub mod Tests
pub mod Runs
