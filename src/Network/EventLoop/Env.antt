-- ===== src/Network/EventLoop/Env.antt =====
-- What the event loop does to its surroundings, and what they answer. The swarm of libp2p, the
-- oneshot and mpsc channels, the file system and the text functions of the standard library are
-- parameters: `Env` has their answers, which may depend on all that was done before. `Act` is one
-- call on them.
use decent_share.Base.{String, Bool, List, Option, Result}
use decent_share.Network.Message.{
  PeerId, QueryId, RequestId, Channel, Sender, Multiaddr, Cookie, Bytes, FilePath, TradeOffer,
  TradeResponse, TradeResponseResponse, DirectMessage, PublishError, Event, Reply,
}

pub data Act : Type 0 where
  -- kademlia: `put_record`, `get_record`, `add_address`
  stored : Bytes → Bytes → Option QueryId → Act
  queried : Bytes → QueryId → Act
  address_added : PeerId → Multiaddr → Act
  -- request_response: `send_request` and `send_response` of the three protocols
  offer_sent : PeerId → TradeOffer → RequestId → Act
  response_sent : PeerId → TradeResponse → RequestId → Act
  message_sent : PeerId → DirectMessage → RequestId → Act
  offer_acknowledged : Channel → Act
  response_answered : Channel → TradeResponseResponse → Act
  message_acknowledged : Channel → Act
  -- gossipsub: `publish`, `add_explicit_peer`, `remove_explicit_peer`
  published : Bytes → Act
  explicit_peer_added : PeerId → Act
  explicit_peer_removed : PeerId → Act
  -- rendezvous and the swarm: `discover`, `register`, `dial`, `add_external_address`
  discovered : Option Cookie → PeerId → Act
  registered_at : PeerId → Act
  dialled : Multiaddr → Act
  external_address_added : Multiaddr → Act
  -- the channels to the main task
  event_sent : Event → Act
  replied : Sender → Reply → Act
  -- the file system
  directories_created : FilePath → Act
  file_written : FilePath → Bytes → Act

-- Newest first.
abbrev pub Trace : Type 0
Trace = List Act

pub record Env : Type 0 where
  pub local_peer_id : PeerId
  pub peer_to_bytes : PeerId → Bytes
  pub peer_from_bytes : Bytes → Option PeerId
  -- `address.ends_with(/p2p/peer)` and `address.with(/p2p/peer)`
  pub ends_with_p2p : Multiaddr → PeerId → Bool
  pub with_p2p : Multiaddr → PeerId → Multiaddr
  pub to_lowercase : String → String
  pub into_bytes : String → Bytes
  pub from_utf8 : Bytes → Option String
  pub from_utf8_lossy : Bytes → String
  pub parent : FilePath → Option FilePath
  -- `none` is the error of a full or refusing record store.
  pub put_record : Trace → Bytes → Bytes → Option QueryId
  pub get_record : Trace → Bytes → QueryId
  pub send_offer : Trace → PeerId → TradeOffer → RequestId
  pub send_response : Trace → PeerId → TradeResponse → RequestId
  pub send_message : Trace → PeerId → DirectMessage → RequestId
  pub publish : Trace → Bytes → Result (Unit {0}) PublishError
  -- Whether an act that may fail succeeds: the receiver is there, the connection stands, the file
  -- system takes the write.
  pub succeeds : Trace → Act → Bool
