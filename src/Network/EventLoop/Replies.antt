-- ===== src/Network/EventLoop/Replies.antt =====
-- The senders that wait in the six tables of the event loop, and those that were answered. The
-- statements rest on what libp2p says of its identifiers: each is given once.
pub mod Tables
pub mod Handlers
pub mod Asked
pub mod Own
pub mod Parts
pub mod Steps
pub mod Runs
use decent_share.Base.{
  ℕ, ◌≡◌, refl, sym, subst, ap, ◌∙◌, ◌⊎◌, inl, inr, List, [], ◌∷◌, Option, none, some, ◌==◌, nat_eq,
  arith, if◌then◌else◌, true, false, Bool, Option-cases, Bool-cases,
}
use decent_share.Base.Dict
use decent_share.Base.Dict.{Dict}
use decent_share.Network.Message.{
  PeerId, Sender, Bytes, TradeOffer, TradeResponse, DirectMessage, Command, register_username,
  find_peer_id, find_peer_username, make_trade_offer, respond_trade, send_chat_message,
  direct_message,
}
use decent_share.Network.EventLoop.Env.{
  Env, Act, Trace, stored, queried, offer_sent, response_sent, message_sent, replied,
}
use decent_share.Network.EventLoop.State.{
  EventLoop, World, Table, registering, messages, peer_ids, usernames, trade_offers,
  trade_responses, pending, with_pending,
}
use decent_share.Network.EventLoop.Swarm.{log}

-- The counters that the identifiers come from: one of kademlia, one for each request protocol.
pub data Counter : Type 0 where
  queries message_requests offer_requests response_requests : Counter

abbrev pub counter : Table → Counter
counter registering = queries
counter peer_ids = queries
counter usernames = queries
counter messages = message_requests
counter trade_offers = offer_requests
counter trade_responses = response_requests

abbrev pub Issues : Counter → ℕ → Act → Type 0
Issues queries id (stored _ _ (some i)) = i ≡ id
Issues queries id (queried _ i) = i ≡ id
Issues message_requests id (message_sent _ _ i) = i ≡ id
Issues offer_requests id (offer_sent _ _ i) = i ≡ id
Issues response_requests id (response_sent _ _ i) = i ≡ id
Issues _ _ _ = ⊥

abbrev pub IsIssued : Counter → ℕ → Trace → Type 0
IsIssued k id [] = ⊥
IsIssued k id (a ∷ t) = Issues k id a ⊎ IsIssued k id t

-- What libp2p documents: an identifier is not given a second time.
pub record IsFresh (env : Env) : Type 0 where
  pub put_record :
      (t : Trace) (key value : Bytes) (id : ℕ)
      → env.put_record t key value ≡ some id
      → ¬ IsIssued queries id t
  pub get_record : (t : Trace) (key : Bytes) → ¬ IsIssued queries (env.get_record t key) t
  pub send_offer :
      (t : Trace) (peer : PeerId) (o : TradeOffer)
      → ¬ IsIssued offer_requests (env.send_offer t peer o) t
  pub send_response :
      (t : Trace) (peer : PeerId) (r : TradeResponse)
      → ¬ IsIssued response_requests (env.send_response t peer r) t
  pub send_message :
      (t : Trace) (peer : PeerId) (m : DirectMessage)
      → ¬ IsIssued message_requests (env.send_message t peer m) t

-- The sender waits under an identifier in a table.
abbrev pub IsWaiting : Sender → EventLoop → Type 0
IsWaiting c s = (t : Table) × (id : ℕ) × (Dict.get (pending t s) id ≡ some c)

abbrev pub Answers : Sender → Act → Type 0
Answers c (replied d _) = d ≡ c
Answers c _ = ⊥

-- An answer was attempted, or `Z`: with `⊥` for `Z` this says that the sender was answered.
abbrev pub AnsweredOr : Type 0 → Sender → Trace → Type 0
AnsweredOr Z c [] = Z
AnsweredOr Z c (a ∷ t) = Answers c a ⊎ AnsweredOr Z c t

abbrev pub HeldOr : Type 0 → Sender → World → Type 0
HeldOr Z c w = IsWaiting c w.loop ⊎ AnsweredOr Z c w.trace

-- The sender waits, or was answered.
abbrev pub IsHeld : Sender → World → Type 0
IsHeld c w = HeldOr ⊥ c w

-- Every identifier in a table was given by the swarm.
abbrev pub IsTracked : World → Type 0
IsTracked w =
    (t : Table) (id : ℕ) (c : Sender)
    → Dict.get (pending t w.loop) id ≡ some c
    → IsIssued (counter t) id w.trace

-- The sender that a command carries.
abbrev pub command_sender : Command → Option Sender
command_sender (register_username _ c) = some c
command_sender (find_peer_id _ c) = some c
command_sender (find_peer_username _ c) = some c
command_sender (make_trade_offer _ _ _ _ _ c) = some c
command_sender (respond_trade _ _ _ _ c) = c
command_sender (send_chat_message _ c) = some c
command_sender (direct_message _ _ c) = some c
