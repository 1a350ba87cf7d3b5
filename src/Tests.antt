-- ===== src/Tests.antt =====
-- The theorems at concrete inputs.
mod Setting
mod Peers
mod Trading
mod Conversations
mod Tasks
mod Runs
mod Startup
