-- ===== src/Network/EventLoop.antt =====
-- src/network/event_loop: the task that owns the swarm.
pub mod Env
pub mod State
pub mod Swarm
pub mod Commands
pub mod Behaviours
pub mod Run
pub mod Traces
pub mod Replies
pub mod Trades
pub mod Lookup
pub mod Rendezvous
pub mod Progress
pub mod Invariants
pub mod Registration
pub mod Conversations
