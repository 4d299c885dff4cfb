-- ===== src/Gateway.antt =====
-- wxf/services/gateway/serv/handler.go: what a gateway does with a new connection, with a message
-- of a user and with a lost connection. Protobuf's codecs and the JWT library are parameters.
pub mod ChannelId
pub mod Handler
pub mod Dialer
