-- ===== src/Channel.antt =====
-- wxf/event.go, channel.go and channels.go: one user's connection as a message channel, and the map
-- of all channels.
pub mod Event
pub mod WriteLoop
pub mod ReadLoop
pub mod TcpMessages
pub mod WsMessages
pub mod ChannelMap
pub mod Deadlines
