-- ===== src/Network/EventLoop/State.antt =====
-- `EventLoop` of src/network/event_loop/mod.rs, and its six tables of senders that wait for an
-- answer. The swarm, the receivers and the interval stand for the surroundings (Env); the topic and
-- the namespace are constants.
use decent_share.Base.{ℕ, String, Bool, false, Option, none, []}
use decent_share.Base.Dict
use decent_share.Base.Dict.{Dict}
use decent_share.Network.Message.{
  PeerId, QueryId, RequestId, Sender, Cookie, Bytes, FilePath, TradeOffer, offer_eq,
}
use decent_share.Network.EventLoop.Env.{Trace}

pub record EventLoop : Type 0 where
  pub rendezvous_peer_id : Option PeerId
  pub pending_register_username : Dict QueryId Sender
  pub pending_request_message : Dict RequestId Sender
  pub pending_peer_id_request : Dict QueryId Sender
  pub pending_username_request : Dict QueryId Sender
  pub pending_trade_offer_request : Dict RequestId Sender
  pub pending_trade_response_response : Dict RequestId Sender
  pub outgoing_trade_offers : Dict (PeerId × TradeOffer) (Bytes × FilePath)
  pub inbound_trade_offers : Dict (PeerId × TradeOffer) (Unit {0})
  pub has_registered_username : Bool
  pub username : String
  pub cookie : Option Cookie

unfoldable pub new : String → Option PeerId → EventLoop
new username rendezvous_peer_id = record {
  rendezvous_peer_id = rendezvous_peer_id;
  pending_register_username = Dict.empty;
  pending_request_message = Dict.empty;
  pending_peer_id_request = Dict.empty;
  pending_username_request = Dict.empty;
  pending_trade_offer_request = Dict.empty;
  pending_trade_response_response = Dict.empty;
  outgoing_trade_offers = Dict.empty;
  inbound_trade_offers = Dict.empty;
  has_registered_username = false;
  username = username;
  cookie = none;
}

-- The event loop with all that it has done.
pub record World : Type 0 where
  pub loop : EventLoop
  pub trace : Trace

abbrev pub start : EventLoop → World
start s = record { loop = s; trace = [] }

-- The tables `pending_…`, to speak of all of them at once.
pub data Table : Type 0 where
  registering messages peer_ids usernames trade_offers trade_responses : Table

abbrev pub pending : Table → EventLoop → Dict ℕ Sender
pending registering s = s.pending_register_username
pending messages s = s.pending_request_message
pending peer_ids s = s.pending_peer_id_request
pending usernames s = s.pending_username_request
pending trade_offers s = s.pending_trade_offer_request
pending trade_responses s = s.pending_trade_response_response

abbrev pub with_pending : Table → Dict ℕ Sender → EventLoop → EventLoop
with_pending registering d s = record s { pending_register_username = d }
with_pending messages d s = record s { pending_request_message = d }
with_pending peer_ids d s = record s { pending_peer_id_request = d }
with_pending usernames d s = record s { pending_username_request = d }
with_pending trade_offers d s = record s { pending_trade_offer_request = d }
with_pending trade_responses d s = record s { pending_trade_response_response = d }
