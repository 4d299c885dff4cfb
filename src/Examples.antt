-- ===== src/Examples.antt =====
-- wxf/examples: the clients and the server for trying the library out.
pub mod Dialer
pub mod Handshake
pub mod Mock
