-- ===== src/Lib.antt =====
-- decent-share: peers that swap files, chat and send direct messages over libp2p.
--
-- The program has two tasks. The main task (src/main.rs) reads the command line and the events of the
-- network, and speaks through a `Client` (src/network/client.rs) to the event loop
-- (src/network/event_loop), which alone has the libp2p swarm: commands go to it over a channel, each
-- with a oneshot sender for its answer, and events come back over another.
--
-- Base has the shared helpers: equality by instance (Base/Equality), the hash maps (Base/Dict), and
-- code that changes a state and may panic (Base/Exec).
-- Network/Message has the data of src/network/mod.rs, of event_loop/command.rs and the `Event` of
-- event_loop/mod.rs. Network/UsernameStore is src/network/username_store.rs.
-- Network/EventLoop is the event loop. State is its record, without the swarm and the channels. What it
-- does to those is an act on its trace (Env), newest first, and what they answer is a function of the
-- environment that may depend on the whole trace. Swarm has the calls that the handlers share,
-- Commands is command_handlers.rs and `handle_command`, and Behaviours is behaviour_handlers.rs: its
-- Kademlia, Messaging, Trading and Discovery have the handlers of those names. Run is `handle_event`
-- and `run` of mod.rs. The other modules there have the theorems: Traces on the acts over whole runs,
-- Replies on the senders that wait for answers, Trades and its children on trades (Trades/Machine as a
-- state machine for each offer, Trades/Paid, Trades/Invited and Trades/Sources over whole runs), Lookup
-- on the way from a username to a peer and back, Conversations on direct messages, Registration on a
-- failed registration and, in its child Bounds, on their number, Rendezvous on the peers that are discovered and, in its child Server, on the server that is asked, and Progress on
-- panics. Invariants has what a statement about the state and the trace must say of the calls that the
-- handlers share (Frame), so that a proof about whole runs looks at no more than the handlers that the
-- statement is about (Own).
-- Network/Setup is `network::new`: what libp2p makes of a configuration or an address is a parameter,
-- and its children Plan and Dialled have the theorems.
-- Task has the surroundings of the main task, and Task/Invariants, Network/Client/Invariants,
-- Action/Invariants, Interface/Invariants and Main/Invariants do for it what Invariants does for the
-- event loop.
-- Network/Client is src/network/client.rs, Action is src/action.rs, Interface is src/interface.rs, with
-- its usage lines in Interface/Usage, Main is the loop of src/main.rs, and Main/Program its `main`,
-- which starts both tasks. Network/Client/Cache, Action/Guards, Action/Acceptance, Action/Careful,
-- Interface/Parsing, Main/Careful, Main/Cache, Main/Addressees and, on both tasks together,
-- Main/Files and Main/Program have the theorems.
-- RendezvousServer is the binary src/bin/rendezvous_server.rs, and RendezvousServer/Log its theorems.
-- Tests has the theorems at concrete inputs, and the environments for them.
--
-- The source's functions keep their names. A part of one that stands under an `if let` or after a
-- `let … else` is a function of its own, by clauses. A panic (`expect`, `unwrap`) is an outcome that
-- keeps what was done before it. The event loop's `select!` is a recursion on the list of inputs in the
-- order in which they come, so that no fuel is needed and any interleaving
-- of commands, events and ticks is such a list; the end of the list is the time at which one looks.
--
-- Identifiers that libp2p makes are numbers. That it gives each of them once (IsFresh), that encodings
-- can be read back (IsDecodable), that acts succeed (IsCooperative, HasRoom), and that the event loop
-- takes only commands that the main task sent (IsFrom) are hypotheses of the theorems that need them.
--
-- Not modelled: the inside of libp2p and of the channels between the two tasks, whose commands, events
-- and answers are any lists and functions, the reading of the program's own arguments, which clap does,
-- and logging, other than that of the rendezvous server. The regular expression of
-- `split_string` is a parameter of the main task. Time is left out: a tick of the interval is an input
-- that may come at any point.
pub mod Base
pub mod Network
pub mod Task
pub mod Action
pub mod Interface
pub mod Main
pub mod RendezvousServer
pub mod Tests
