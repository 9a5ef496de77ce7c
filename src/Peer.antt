-- ===== src/Peer.antt =====
-- peer.rs and peer/: one end of a connection over which actor messages are sent and received.
pub mod Errors
pub mod Display
pub mod BackPressure
pub mod State
pub mod Texts
pub mod Outgoing
pub mod Requests
pub mod Incoming
pub mod Calls
pub mod Moves
pub mod Closing
pub mod Handlers
pub mod Arrivals
pub mod Reach
pub mod Answers
pub mod Untouched
pub mod Throttle
pub mod Listening
pub mod Numbering
pub mod Matching
pub mod Reports
pub mod Slots
pub mod Tests
pub mod Runs
