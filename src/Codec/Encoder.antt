-- ===== src/Codec/Encoder.antt =====
-- thes_wf/encoder.rs: the sink of frames. Its writer's answers are a list, one for each poll; a
-- writer that has no answer left is not ready.
mod Flush
pub mod Delivery
unfoldable pub use Flush.*
