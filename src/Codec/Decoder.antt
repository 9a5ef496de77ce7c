-- ===== src/Codec/Decoder.antt =====
-- thes_wf/decoder.rs: the stream of frames that reads with boxed futures.
mod Poll
pub mod Delivery
pub mod Oversize
unfoldable pub use Poll.*
