-- ===== src/Network/EventLoop/Run.antt =====
-- `handle_event` and `run` of src/network/event_loop/mod.rs. One round of the loop takes what
-- `select!` chose: an input.
use decent_share.Base.{
  ℕ, Bool, List, [], ◌∷◌, Option, none, some, Result, nat_eq, ◌==◌, if◌then◌else◌, is_some, ◌&&◌,
}
use decent_share.Base.Exec.{pure, gets, ◌>>=◌, ◌>>◌}
use decent_share.Network.Message.{
  PeerId, QueryId, RequestId, Multiaddr, Cookie, Bytes, TradeOffer, TradeResponse,
  TradeResponseResponse, DirectMessage, Message, Command, PutRecordError,
}
use decent_share.Network.EventLoop.Env.{Env}
use decent_share.Network.EventLoop.Swarm.{Handler}
use decent_share.Network.EventLoop.Commands.{handle_command}
use decent_share.Network.EventLoop.Behaviours.Kademlia.{
  GetRecordOk, handle_get_record, handle_put_record, handle_kademlia_routing_updated,
}
use decent_share.Network.EventLoop.Behaviours.Messaging.{
  handle_direct_messaging_message, handle_direct_messaging_outbound_failure,
  handle_gossipsub_message,
}
use decent_share.Network.EventLoop.Behaviours.Trading.{
  handle_trade_offering_message, handle_trade_offering_outbound_failure,
  handle_trade_response_message, handle_trade_response_outbound_failure,
}
use decent_share.Network.EventLoop.Behaviours.Discovery.{
  Registration, handle_mdns_discovered, handle_mdns_expired, handle_rendezvous_discovered,
  handle_connected_to_rendezvous_server, handle_identify_received, discover,
}

-- The swarm events that `handle_event` tells apart, with the fields that it reads.
pub data SwarmEvent : Type 0 where
  get_record_progressed : QueryId → Result GetRecordOk ℕ → SwarmEvent
  put_record_progressed : QueryId → Result (Unit {0}) PutRecordError → SwarmEvent
  routing_updated : SwarmEvent
  direct_messaging_message : PeerId → Message DirectMessage (Unit {0}) → SwarmEvent
  direct_messaging_outbound_failure : RequestId → ℕ → SwarmEvent
  trade_offering_message : PeerId → Message TradeOffer (Unit {0}) → SwarmEvent
  trade_offering_outbound_failure : RequestId → ℕ → SwarmEvent
  trade_response_message : PeerId → Message TradeResponse TradeResponseResponse → SwarmEvent
  trade_response_outbound_failure : RequestId → ℕ → SwarmEvent
  mdns_discovered : List (PeerId × Multiaddr) → SwarmEvent
  mdns_expired : List (PeerId × Multiaddr) → SwarmEvent
  gossipsub_message : PeerId → Bytes → SwarmEvent
  connection_established : PeerId → SwarmEvent
  rendezvous_discovered : List Registration → Cookie → SwarmEvent
  identify_received : Multiaddr → SwarmEvent
  other_event : SwarmEvent

pub data Input : Type 0 where
  event : SwarmEvent → Input
  command : Command → Input
  tick : Input
  commands_closed : Input

-- `Some(peer_id) == self.rendezvous_peer_id`
abbrev pub is_rendezvous : PeerId → Option PeerId → Bool
is_rendezvous peer_id none = Bool.false
is_rendezvous peer_id (some rendezvous_peer_id) = peer_id == rendezvous_peer_id

module _ (env : Env) where
  unfoldable pub handle_event : SwarmEvent → Handler (Unit {0})
  handle_event (get_record_progressed id result) = handle_get_record env result id
  handle_event (put_record_progressed id result) = handle_put_record env result id
  handle_event routing_updated = handle_kademlia_routing_updated env
  handle_event (direct_messaging_message peer message) =
      handle_direct_messaging_message env message peer
  handle_event (direct_messaging_outbound_failure id error) =
      handle_direct_messaging_outbound_failure env id error
  handle_event (trade_offering_message peer message) =
      handle_trade_offering_message env message peer
  handle_event (trade_offering_outbound_failure id error) =
      handle_trade_offering_outbound_failure env error id
  handle_event (trade_response_message peer message) =
      handle_trade_response_message env message peer
  handle_event (trade_response_outbound_failure id error) =
      handle_trade_response_outbound_failure env id error
  handle_event (mdns_discovered list) = handle_mdns_discovered env list
  handle_event (mdns_expired list) = handle_mdns_expired env list
  handle_event (gossipsub_message peer message) = handle_gossipsub_message env message peer
  handle_event (connection_established peer) = do
    rendezvous_peer_id ← gets (λ w. w.loop.rendezvous_peer_id)
    if is_rendezvous peer rendezvous_peer_id
        then handle_connected_to_rendezvous_server env
        else pure tt
  handle_event (rendezvous_discovered registrations cookie) =
      handle_rendezvous_discovered env registrations cookie
  handle_event (identify_received observed_addr) = handle_identify_received env observed_addr
  handle_event other_event = pure tt

  -- The interval's arm, with its precondition.
  unfoldable pub handle_tick : Handler (Unit {0})
  handle_tick = do
    rendezvous_peer_id ← gets (λ w. w.loop.rendezvous_peer_id)
    cookie ← gets (λ w. w.loop.cookie)
    if is_some rendezvous_peer_id && is_some cookie then discover env cookie else pure tt

  unfoldable pub step : Input → Handler (Unit {0})
  step (event e) = handle_event e
  step (command c) = handle_command env c
  step tick = handle_tick
  step commands_closed = pure tt

  -- The loop over the inputs that come, until the command channel closes or a handler panics.
  unfoldable pub run : List Input → Handler (Unit {0})
  run [] = pure tt
  run (commands_closed ∷ inputs) = pure tt
  run (input ∷ inputs) = do step input; run inputs
