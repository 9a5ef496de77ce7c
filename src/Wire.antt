-- ===== src/Wire.antt =====
-- wire_format.rs and its modules: identifiers, errors of the wire, kinds of message.
pub mod UniqueId
pub mod ServiceId
pub mod ConnId
pub mod Registry
pub mod WireErr
pub mod WireType
pub mod Texts
