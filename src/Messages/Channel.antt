-- ===== src/Messages/Channel.antt =====
-- crates/aura-net/src/messages/channel.rs: creating and destroying channels.
pub mod CreateRequest
pub mod CreateResponse
pub mod Destroy
