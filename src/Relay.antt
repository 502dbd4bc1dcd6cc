-- ===== src/Relay.antt =====
-- crates/plugkill-relay/src: the relay between peers.
pub mod Utf8
pub mod Protocol
pub mod Listener
pub mod Sender
pub mod Config
pub mod Trigger
