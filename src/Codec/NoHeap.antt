-- ===== src/Codec/NoHeap.antt =====
-- thes_wf/decoder_noheap.rs: the stream of frames that reads into its own buffer.
mod Poll
pub mod Message
pub mod Length
pub mod Delivery
pub mod Faults
pub mod Stream
unfoldable pub use Poll.*
