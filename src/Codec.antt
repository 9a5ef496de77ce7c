-- ===== src/Codec.antt =====
-- thes_wf/: the codec that cuts a byte stream into frames.
pub mod Transport
pub mod Framing
pub mod Encoder
pub mod Decoder
pub mod NoHeap
pub mod Roundtrip
pub mod Link
pub mod Streams
pub mod Tests
