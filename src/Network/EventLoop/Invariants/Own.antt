-- ===== src/Network/EventLoop/Invariants/Own.antt =====
-- The seven handlers that make offers, answer them, send direct messages, or register: an invariant
-- keeps them that does not look at the field they change, and to which their acts are free.
use decent_share.Base.{
  ◌≡◌, refl, String, ◌≢◌, Option, none, some, Result, ◌==◌, nat_eq, arith, Bool, true, false,
  Bool-cases, inl, inr, if◌then◌else◌,
}
use decent_share.Base.Dict.{Dict}
use decent_share.Base.Exec.Keeps.{Keeps, Keeps-bind, Keeps-if, Keeps-then}
use decent_share.Network.Message.{
  PeerId, Sender, Bytes, FilePath, TradeOffer, TradeResponse, TradeResponseResponse, RequestId,
  QueryId, Channel, PutRecordError, request, registered, inbound_trade_offer, registration_request,
}
use decent_share.Network.EventLoop.Env.{
  Env, Act, offer_sent, response_sent, message_sent, response_answered, event_sent, replied,
}
use decent_share.Network.EventLoop.State.{World}
use decent_share.Network.EventLoop.Swarm.{Handler, modify_loop, take_outgoing, take_inbound}
use decent_share.Network.EventLoop.Commands.{
  handle_make_trade_offer, refuse_trade, await_response, handle_respond_trade,
  handle_direct_message,
}
use decent_share.Network.EventLoop.Behaviours.Kademlia.{
  finish_registration, handle_put_record, request_registration, handle_kademlia_routing_updated,
}
use decent_share.Network.EventLoop.Behaviours.Trading.{
  create_parents, exchange, complete_trade, handle_trade_offering_message,
  handle_trade_response_message,
}
use decent_share.Network.EventLoop.Invariants.{Frame, send_response-Keeps, frame_rules}

-- The answer to a response, with a file or without.
abbrev pub answer_to : TradeResponse → Option Bytes → TradeResponseResponse
answer_to r file = record {
  offered_file_name = r.offered_file_name;
  requested_file_name = r.requested_file_name;
  offered_file_bytes = file;
}

-- `P` does not look at one field of the event loop.
abbrev pub IgnoresOutgoing : (World → Type 0) → Type 0
IgnoresOutgoing P =
    (d : Dict (PeerId × TradeOffer) (Bytes × FilePath)) (w : World)
    → P w
    → P (record w { loop = record (w.loop) { outgoing_trade_offers = d } })

abbrev pub IgnoresInbound : (World → Type 0) → Type 0
IgnoresInbound P =
    (d : Dict (PeerId × TradeOffer) (Unit {0})) (w : World)
    → P w
    → P (record w { loop = record (w.loop) { inbound_trade_offers = d } })

abbrev pub IgnoresRegistered : (World → Type 0) → Type 0
IgnoresRegistered P =
    (b : Bool) (w : World)
    → P w
    → P (record w { loop = record (w.loop) { has_registered_username = b } })

module _ {P : World → Type 0} {Free : Act → Type 0} (frame : Frame P Free) (env : Env) where
  -- The branches of a test on equality with the peer itself.
  unless_self-Keeps :
      (peer : PeerId) (m n : Handler (Unit {0}))
      → Keeps P m
      → (peer ≢ env.local_peer_id → Keeps P n)
      → Keeps P (if peer == env.local_peer_id then m else n)
  unless_self-Keeps peer m n hm hn = elim (Bool-cases (peer == env.local_peer_id)) [
    | inl e ↦ rw e hm
    | inr e ↦ rw e (hn (ground arith))
  ]

  pub handle_direct_message-Keeps :
      (peer : PeerId) (text : String) (c : Sender)
      → (peer ≢ env.local_peer_id
          → (id : RequestId) → Free (message_sent peer (record { message = text }) id))
      → Keeps P (handle_direct_message env peer text c)
  unfolding handle_direct_message
  handle_direct_message-Keeps peer text c free =
      unless_self-Keeps peer _ _ (search (frame_rules, frame.plain))
        (λ other. search (frame_rules, free other))

  -- What follows the removal of an offer: the acts of the exchange, the answer last.
  create_parents-Keeps : (p : Option FilePath) → Keeps P (create_parents env p)
  unfolding create_parents
  create_parents-Keeps none = search frame_rules
  create_parents-Keeps (some p) = search (frame_rules, frame.plain)

  exchange-Keeps :
      (file : Option Bytes) (b : Bytes) (path : FilePath) → Keeps P (exchange env file b path)
  unfolding exchange
  exchange-Keeps none b path = search frame_rules
  exchange-Keeps (some file) b path =
      Keeps-then _ _ (create_parents-Keeps (env.parent path)) (search (frame_rules, frame.plain))

  pub complete_trade-Keeps :
      (entry : Option (Bytes × FilePath)) (r : TradeResponse) (k : Channel) (peer : PeerId)
      → ((file : Option Bytes) → Free (response_answered k (answer_to r file)))
      → Keeps P (complete_trade env entry r k peer)
  unfolding complete_trade
  complete_trade-Keeps none r k peer free = search frame_rules
  complete_trade-Keeps (some (b, path)) r k peer free =
      Keeps-then _ _ (search (frame_rules, frame.plain))
        (Keeps-bind _ _ (exchange-Keeps _ _ _) (λ answer. search (frame_rules, free)))

  module _ (ignored : IgnoresOutgoing P) where
    pub handle_make_trade_offer-Keeps :
        (o : String) (b : Bytes) (peer : PeerId) (r : String) (path : FilePath) (c : Sender)
        → (peer ≢ env.local_peer_id
            → (id : RequestId)
            → Free (offer_sent peer (record { offered_file_name = o; requested_file_name = r }) id))
        → Keeps P (handle_make_trade_offer env o b peer r path c)
    unfolding handle_make_trade_offer modify_loop
    handle_make_trade_offer-Keeps o b peer r path c free =
        unless_self-Keeps peer _ _ (search (frame_rules, frame.plain)) (λ other.
          Keeps-bind _ _ (search (frame_rules, free other))
            (λ id. Keeps-then _ _ (search frame_rules) (record { at = λ w h. ignored _ w h })))

    take_outgoing-Keeps : (key : PeerId × TradeOffer) → Keeps P (take_outgoing key)
    unfolding take_outgoing
    take_outgoing-Keeps key = record { at = λ w h. ignored _ w h }

    pub handle_trade_response-Keeps :
        (r : TradeResponse) (k : Channel) (peer : PeerId)
        → ((file : Option Bytes) → Free (response_answered k (answer_to r file)))
        → Keeps P (handle_trade_response_message env (request r k) peer)
    unfolding handle_trade_response_message
    handle_trade_response-Keeps r k peer free =
        Keeps-bind _ _ (take_outgoing-Keeps _) (λ entry. complete_trade-Keeps entry r k peer free)

  pub refuse_trade-Keeps :
      (offered requested : String) (c : Option Sender)
      → Keeps P (refuse_trade env offered requested c)
  unfolding refuse_trade
  refuse_trade-Keeps offered requested none = search frame_rules
  refuse_trade-Keeps offered requested (some c) = search (frame_rules, frame.plain)

  pub await_response-Keeps :
      (c : Option Sender) (id : RequestId) → Keeps P (await_response env c id)
  unfolding await_response
  await_response-Keeps none id = search frame_rules
  await_response-Keeps (some c) id = search frame_rules

  module _ (ignored : IgnoresInbound P) where
    take_inbound-Keeps : (key : PeerId × TradeOffer) → Keeps P (take_inbound key)
    unfolding take_inbound
    take_inbound-Keeps key = record { at = λ w h. ignored _ w h }

    pub handle_respond_trade-Keeps :
        (peer : PeerId) (r o : String) (file : Option Bytes) (c : Option Sender)
        → ((t : TradeResponse)
            → t.requested_file_bytes ≡ file
            → (id : RequestId) → Free (response_sent peer t id))
        → Keeps P (handle_respond_trade env peer r o file c)
    unfolding handle_respond_trade
    handle_respond_trade-Keeps peer r o file c free =
        Keeps-bind _ _ (take_inbound-Keeps _) (λ was_open.
          Keeps-if was_open _ _
            (Keeps-bind _ _ (send_response-Keeps frame env peer _ (free _ refl))
              (λ id. await_response-Keeps c id))
            (refuse_trade-Keeps o r c))

    pub handle_trade_offering-Keeps :
        (o : TradeOffer) (k : Channel) (peer : PeerId)
        → Free (event_sent (inbound_trade_offer o.offered_file_name peer o.requested_file_name))
        → Keeps P (handle_trade_offering_message env (request o k) peer)
    unfolding handle_trade_offering_message modify_loop
    handle_trade_offering-Keeps o k peer free =
        Keeps-then _ _ (search (frame_rules, frame.plain))
          (Keeps-then _ _ (record { at = λ w h. ignored _ w h }) (search frame_rules))

  module _ (ignored : IgnoresRegistered P) where
    pub handle_put_record-Keeps :
        (result : Result (Unit {0}) PutRecordError) (id : QueryId)
        → ((c : Sender) → Free (replied c (registered result)))
        → Keeps P (handle_put_record env result id)
    unfolding handle_put_record modify_loop
    handle_put_record-Keeps result id free = Keeps-bind _ _ (search frame_rules) finish
      where
        finish : (c : Option Sender) → Keeps P (finish_registration env c result)
        finish none = search frame_rules
        finish (some c) =
            Keeps-then _ _ (record { at = λ w h. ignored _ w h }) (search (frame_rules, free))

    pub handle_kademlia_routing_updated-Keeps :
        ((username : String) → Free (event_sent (registration_request username)))
        → Keeps P (handle_kademlia_routing_updated env)
    unfolding handle_kademlia_routing_updated modify_loop
    handle_kademlia_routing_updated-Keeps free =
        Keeps-bind _ _ (search frame_rules)
          (λ has. Keeps-bind _ _ (search frame_rules) (λ username. asked has username))
      where
        asked : (b : Bool) (username : String) → Keeps P (request_registration env b username)
        asked true username = search frame_rules
        asked false username =
            Keeps-then _ _ (search (frame_rules, free)) (record { at = λ w h. ignored _ w h })
