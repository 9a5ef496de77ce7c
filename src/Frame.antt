-- ===== src/Frame.antt =====
-- thes_wf.rs: the wire format, a byte buffer with a header of three little-endian u64 words
-- (length, service id, connection id) and a serialized message behind them.
pub mod Cursor
pub mod ByteOrder
pub mod ThesWf
pub mod Ranges
pub mod Fields
pub mod Build
pub mod Kinds
pub mod Addressed
