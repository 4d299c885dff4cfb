-- ===== src/Wire.antt =====
-- wxf/wire: the byte-level codecs and the sequence counter.
pub mod Writer
pub mod Endian
pub mod Seq
pub mod Pkt
pub mod Token
