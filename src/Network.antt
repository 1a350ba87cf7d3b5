-- ===== src/Network.antt =====
-- src/network: the messages that peers exchange (mod.rs), and the children for the event loop, the
-- client and the cache of usernames.
pub mod Message
pub mod UsernameStore
pub mod EventLoop
pub mod Client
pub mod Setup
