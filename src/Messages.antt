-- ===== src/Messages.antt =====
-- crates/aura-net/src/messages: the payloads of the protocol's messages.
pub mod Status
pub mod ChannelList
pub mod Channel
pub mod Connection
pub mod Monitor
pub mod Search
mod Tests
