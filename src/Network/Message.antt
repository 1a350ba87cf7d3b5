-- ===== src/Network/Message.antt =====
-- The data of src/network/mod.rs, of event_loop/command.rs and of event_loop/mod.rs that travels
-- between peers and between the two tasks of a peer. Identifiers that libp2p makes (peers, queries,
-- requests, channels, addresses, cookies) are opaque to the program, which compares, stores and
-- passes them on: numbers stand for them. A oneshot sender is the number of its channel.
use decent_share.Base.{
  ℕ, String, ◌≡◌, ◌↔◌, Bool, true, ◌&&◌, List, Option, Result, arith, Eq, ◌==◌, nat_eq, string_eq,
}

abbrev pub PeerId : Type 0
PeerId = ℕ

abbrev pub QueryId : Type 0
QueryId = ℕ

abbrev pub RequestId : Type 0
RequestId = ℕ

abbrev pub Channel : Type 0
Channel = ℕ

abbrev pub Sender : Type 0
Sender = ℕ

abbrev pub Multiaddr : Type 0
Multiaddr = ℕ

abbrev pub Cookie : Type 0
Cookie = ℕ

abbrev pub Bytes : Type 0
Bytes = List ℕ

abbrev pub FilePath : Type 0
FilePath = String

pub record TradeOffer : Type 0 where
  pub offered_file_name : String
  pub requested_file_name : String

abbrev pub offer_beq : TradeOffer → TradeOffer → Bool
offer_beq a b =
    a.offered_file_name == b.offered_file_name && a.requested_file_name == b.requested_file_name

pub offer_beq_iff : (a b : TradeOffer) → (offer_beq a b ≡ true) ↔ (a ≡ b)
offer_beq_iff a b = ground (
  arith,
  string_eq.beq_iff a.offered_file_name b.offered_file_name,
  string_eq.beq_iff a.requested_file_name b.requested_file_name,
)

instance abbrev pub offer_eq : Eq TradeOffer
offer_eq = record { beq = offer_beq; beq_iff = offer_beq_iff }

pub record TradeResponse : Type 0 where
  pub requested_file_name : String
  pub offered_file_name : String
  pub requested_file_bytes : Option Bytes

pub record TradeResponseResponse : Type 0 where
  pub offered_file_name : String
  pub requested_file_name : String
  pub offered_file_bytes : Option Bytes

pub record DirectMessage : Type 0 where
  pub message : String

-- `request_response::Message`, without the fields that the program does not read.
pub data Message (Request Response : Type 0) : Type 0 where
  request : Request → Channel → Message Request Response
  response : Response → RequestId → Message Request Response

-- `gossipsub::PublishError`: the two cases that the program tells apart, and all others.
pub data PublishError : Type 0 where
  insufficient_peers message_too_large : PublishError
  other : ℕ → PublishError

-- What an `anyhow::Error` of the program holds: one constructor for each text. `not_register_user` is
-- that of `accept_trade`, and `offered_file_exists` that of `handle_accept_trade`, which differ from the
-- others'. The errors of libraries are opaque.
pub data Error : Type 0 where
  self_trade self_message no_bytes : Error
  no_valid_trade : String → String → Error
  not_registered not_register_user : String → Error
  outbound_failure get_record_error : ℕ → Error
  utf8_error : Error
  not_a_file file_exists offered_file_exists : FilePath → Error
  io_error : ℕ → Error

abbrev pub PutRecordError : Type 0
PutRecordError = ℕ

-- Event loop to main task: `Event`.
pub data Event : Type 0 where
  inbound_trade_offer : String → PeerId → String → Event
  inbound_trade_response : PeerId → String → String → Bool → Event
  inbound_direct_message : PeerId → String → Event
  inbound_chat : PeerId → String → Event
  registration_request : String → Event

-- Main task to event loop: `Command`. The last argument is the sender for the answer.
pub data Command : Type 0 where
  register_username : String → Sender → Command
  find_peer_id : String → Sender → Command
  find_peer_username : PeerId → Sender → Command
  make_trade_offer : String → Bytes → PeerId → String → FilePath → Sender → Command
  respond_trade : PeerId → String → String → Option Bytes → Option Sender → Command
  send_chat_message : String → Sender → Command
  direct_message : PeerId → String → Sender → Command

-- What is sent on a oneshot channel, one constructor for each type of channel.
pub data Reply : Type 0 where
  registered : Result (Unit {0}) PutRecordError → Reply
  peer_found : Option PeerId → Reply
  username_found : Result String Error → Reply
  delivered : Result (Unit {0}) Error → Reply
  bytes_received : Result (Option Bytes) Error → Reply
  chat_sent : Result (Unit {0}) PublishError → Reply
