-- ===== src/Network/EventLoop/Behaviours.antt =====
-- src/network/event_loop/behaviour_handlers.rs: the handlers for what the swarm reports, by
-- protocol. Logging is left out.
pub mod Kademlia
pub mod Messaging
pub mod Trading
pub mod Discovery
