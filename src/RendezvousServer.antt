-- ===== src/RendezvousServer.antt =====
-- src/bin/rendezvous_server.rs: a process of its own that registers peers and tells them of each other.
-- libp2p does both inside the swarm; the program builds it, listens, and logs what the swarm reports.
pub mod Log
use decent_share.Base.{
  ℕ, zero, suc, String, ◌<>◌, Bool, true, false, List, [], ◌∷◌, Option, none, some, Result, ok, err,
}
use decent_share.Base.Exec.{Exec, returned, pure, panic, ◌>>=◌, ◌>>◌}
use decent_share.Network.Message.{PeerId, Multiaddr}

pub data SwarmEvent : Type 0 where
  connection_established connection_closed : PeerId → SwarmEvent
  peer_registered : PeerId → String → SwarmEvent
  -- the registrations are given by their namespaces
  discover_served : PeerId → List String → SwarmEvent
  -- any other event, by its debug text
  unhandled : String → SwarmEvent

-- The peer whose public key identify tells, and its protocol; the rendezvous server has no parameters.
pub record RendezvousServerBehaviour : Type 0 where
  pub identify : String × PeerId

pub data ServerAct : Type 0 where
  swarm_built : RendezvousServerBehaviour → ServerAct
  listened : Multiaddr → ServerAct
  info debug : String → ServerAct

-- The library's errors are opaque.
pub data ServerError : Type 0 where
  tcp_error behaviour_error : ℕ → ServerError

pub record ServerEnv : Type 0 where
  -- the peer of the key of these bytes
  pub keypair : List ℕ → Option PeerId
  pub with_tcp : Result (Unit {0}) ℕ
  pub with_behaviour : RendezvousServerBehaviour → Result (Unit {0}) ℕ
  pub parse_multiaddr : String → Option Multiaddr
  pub listen_on : Multiaddr → Bool
  -- `{}` of a peer and of a number
  pub show_peer_id : PeerId → String
  pub show_number : ℕ → String

-- The acts so far, newest first.
abbrev pub Server : Type 0 → Type 0
Server A = Exec (List ServerAct) A

unfoldable pub do_act : ServerAct → Server (Unit {0})
do_act a t = (returned tt, a ∷ t)

abbrev pub replicate : {A : Type 0} → ℕ → A → List A
replicate zero a = []
replicate (suc n) a = a ∷ replicate n a

abbrev pub length : {A : Type 0} → List A → ℕ
length [] = 0
length (x ∷ xs) = suc (length xs)

-- `result.unwrap()`, where the error is left out
unfoldable unwrap : {A : Type 0} → Option A → Server A
unwrap none = panic "called `Result::unwrap()` on an `Err` value"
unwrap (some a) = pure a

-- `result?`
unfoldable or_return :
    {A : Type 0}
    → (ℕ → ServerError)
    → Result (Unit {0}) ℕ
    → Server (Result A ServerError)
    → Server (Result A ServerError)
or_return f (ok _) rest = rest
or_return f (err e) rest = pure (err (f e))

-- `let _ = swarm.listen_on(address)`
unfoldable listen : Multiaddr → Bool → Server (Unit {0})
unfolding do_act
listen address true = do_act (listened address)
listen address false = pure tt

abbrev pub behaviour : PeerId → RendezvousServerBehaviour
behaviour peer_id = record { identify = ("rendezvous-identify/1.0.0", peer_id) }

module _ (env : ServerEnv) where
  unfoldable pub handle_event : SwarmEvent → Server (Unit {0})
  unfolding do_act
  handle_event (connection_established peer_id) =
      do_act (info ("Connected to " <> env.show_peer_id peer_id))
  handle_event (connection_closed peer_id) =
      do_act (info ("Disconnected from " <> env.show_peer_id peer_id))
  handle_event (peer_registered peer namespace) =
      do_act (
        info
          ("Peer " <> env.show_peer_id peer <> " registered for namespace '" <> namespace <> "'"))
  handle_event (discover_served enquirer registrations) = do_act (
      info (
        "Served peer "
        <> env.show_peer_id enquirer
        <> " with "
        <> env.show_number (length registrations)
        <> " registrations"))
  handle_event (unhandled event) = do_act (debug ("Unhandled " <> event))

  -- `while let Some(event) = swarm.next().await`, for the events until the stream ends.
  unfoldable pub serve : List SwarmEvent → Server (Result (Unit {0}) ServerError)
  unfolding handle_event
  serve [] = pure (ok tt)
  serve (event ∷ events) = do handle_event event; serve events

  unfoldable pub main : List SwarmEvent → Server (Result (Unit {0}) ServerError)
  unfolding unwrap or_return listen serve
  main events = do
    peer_id ← unwrap (env.keypair (replicate 32 0))
    or_return tcp_error env.with_tcp (
        or_return behaviour_error (env.with_behaviour (behaviour peer_id)) (do
          do_act (swarm_built (behaviour peer_id))
          address ← unwrap (env.parse_multiaddr "/ip4/0.0.0.0/tcp/62649")
          listen address (env.listen_on address)
          serve events))
