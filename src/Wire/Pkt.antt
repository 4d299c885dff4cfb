-- ===== src/Wire/Pkt.antt =====
-- wxf/wire/pkt: the packets and their metadata.
pub mod Message
pub mod Meta
pub mod Basic
pub mod Logic
pub mod Packet
