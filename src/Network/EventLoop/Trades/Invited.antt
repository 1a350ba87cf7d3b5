-- ===== src/Network/EventLoop/Trades/Invited.antt =====
-- Which responses leave the event loop, against the offers of which the user was told.
use decent_share.Base.{
  ◌≡◌, refl, sym, ◌∙◌, ◌⊎◌, inl, inr, [], ◌∷◌, ℕ, List, Option, some, String, Bool-cases,
  Option-cases, ◌==◌, nat_eq, pair_eq, arith,
}
use decent_share.Base.Dict
use decent_share.Base.Dict.{Dict}
use decent_share.Base.Exec.{◌>>=◌, expect}
use decent_share.Base.Exec.Keeps.{Keeps, Keeps-bind}
use decent_share.Network.Message.{
  PeerId, Sender, Bytes, Channel, TradeOffer, offer_eq, request, make_trade_offer, respond_trade,
  direct_message, inbound_trade_offer,
}
use decent_share.Network.EventLoop.Env.{
  Env, Act, Trace, response_sent, event_sent, offer_acknowledged,
}
use decent_share.Network.EventLoop.State.{World, Table, registering, new, start, with_pending}
use decent_share.Network.EventLoop.Swarm.{
  take_inbound, attempt, attempt_or_panic, send_event, modify_loop,
}
use decent_share.Network.EventLoop.Commands.{handle_respond_trade}
use decent_share.Network.EventLoop.Behaviours.Trading.{handle_trade_offering_message}
use decent_share.Network.EventLoop.Run
use decent_share.Network.EventLoop.Run.{Input, run}
use decent_share.Network.EventLoop.Invariants.{Frame, IsPlain, send_response-Keeps}
use decent_share.Network.EventLoop.Invariants.Handlers.{Own}
use decent_share.Network.EventLoop.Invariants.Own.{
  handle_make_trade_offer-Keeps, handle_direct_message-Keeps, handle_put_record-Keeps,
  handle_kademlia_routing_updated-Keeps, handle_trade_response-Keeps, refuse_trade-Keeps,
  await_response-Keeps,
}
use decent_share.Network.EventLoop.Invariants.Steps.{run-Keeps}
use decent_share.Network.EventLoop.Traces.{Every}
use decent_share.Network.EventLoop.Trades.{offer_of}
use decent_share.Network.EventLoop.Trades.Offers.{key_of}

-- The user's task was sent the offer of the peer.
abbrev pub WasInvited : PeerId × TradeOffer → Trace → Type 0
WasInvited key [] = ⊥
WasInvited key (event_sent (inbound_trade_offer o peer r) ∷ t) =
    ((peer, record { offered_file_name = o; requested_file_name = r }) ≡ key) ⊎ WasInvited key t
WasInvited key (_ ∷ t) = WasInvited key t

-- A response goes to a peer only after its offer was shown to the user.
abbrev pub IsInvited : Trace → Act → Type 0
IsInvited t (response_sent peer r _) = WasInvited (peer, offer_of r) t
IsInvited t _ = Unit

later :
    (key : PeerId × TradeOffer) (a : Act) (t : Trace) → WasInvited key t → WasInvited key (a ∷ t)
later key (event_sent (inbound_trade_offer o peer r)) t h = inr h
later key _ t h = h

abbrev IsRecorded : World → Type 0
IsRecorded w =
    ((key : PeerId × TradeOffer)
      → Dict.get w.loop.inbound_trade_offers key ≡ some tt
      → WasInvited key w.trace)
    × Every IsInvited w.trace

abbrev IsFree : Act → Type 0
IsFree a = (t : Trace) → IsInvited t a

plain-IsFree : (a : Act) → IsPlain a → IsFree a
plain-IsFree (response_sent peer r id) h t = absurd h
plain-IsFree _ h t = tt

senders_kept :
    (t : Table) (d : Dict ℕ Sender) (w : World)
    → IsRecorded w
    → IsRecorded (record w { loop = with_pending t d w.loop })
senders_kept registering d w h = h
senders_kept _ d w h = h

recorded : Frame IsRecorded IsFree
recorded = record {
  plain = plain-IsFree;
  logged = λ a w free h. ((λ key e. later key a w.trace (h.0 key e)), (free w.trace, h.1));
  senders = senders_kept;
  cookies = λ k w h. h;
  discovers = λ k p w e h. (h.0, (tt, h.1));
  registers = λ p w e h. (h.0, (tt, h.1));
}

-- While an offer is answered, that it was shown is known too.
abbrev IsAnswering : PeerId × TradeOffer → World → Type 0
IsAnswering key w = IsRecorded w × WasInvited key w.trace

abbrev IsFreeFor : PeerId × TradeOffer → Act → Type 0
IsFreeFor key a = (t : Trace) → WasInvited key t → IsInvited t a

answering : (key : PeerId × TradeOffer) → Frame (IsAnswering key) (IsFreeFor key)
answering key = record {
  plain = λ a h t o. plain-IsFree a h t;
  logged = λ a w free h. (
    ((λ k e. later k a w.trace (h.0.0 k e)), (free w.trace h.1, h.0.1)),
    later key a w.trace h.1,
  );
  senders = λ t d w h. (senders_kept t d w h.0, h.1);
  cookies = λ k w h. h;
  discovers = λ k p w e h. ((h.0.0, (tt, h.0.1)), h.1);
  registers = λ p w e h. ((h.0.0, (tt, h.0.1)), h.1);
}

module _ (env : Env) where
  respond-Keeps :
      (peer : PeerId) (r o : String) (file : Option Bytes) (c : Option Sender)
      → Keeps IsRecorded (handle_respond_trade env peer r o file c)
  unfolding handle_respond_trade take_inbound ◌>>=◌
  respond-Keeps peer r o file c = record {
    at = λ w h. elim (Option-cases (Dict.get w.loop.inbound_trade_offers (key_of env peer r o))) [
      | inl e ↦ rw e ((refuse_trade-Keeps recorded env o r c).at _ (remaining w h, h.1))
      | inr (tt, e) ↦ rw e (
          ((Keeps-bind _ _
              (send_response-Keeps (answering (key_of env peer r o)) env peer _ (λ id t i. i))
              (λ id. await_response-Keeps (answering (key_of env peer r o)) env c id)).at
            _ ((remaining w h, h.1), h.0 _ e)).0)
    ];
  }
    where
      remaining :
          (w : World)
          → IsRecorded w
          → (key : PeerId × TradeOffer)
          → Dict.get (Dict.remove w.loop.inbound_trade_offers (key_of env peer r o)) key ≡ some tt
          → WasInvited key w.trace
      remaining w h key f =
          h.0 key (
            ground
              (arith, f, Dict.get-remove w.loop.inbound_trade_offers (key_of env peer r o) key))

  -- The offer is recorded just before the user is told of it.
  offering-Keeps :
      (offer : TradeOffer) (k : Channel) (peer : PeerId)
      → Keeps IsRecorded (handle_trade_offering_message env (request offer k) peer)
  unfolding handle_trade_offering_message attempt_or_panic attempt send_event modify_loop expect
      ◌>>=◌
  offering-Keeps offer k peer = record {
    at = λ w h. elim (Bool-cases (env.succeeds w.trace (offer_acknowledged k))) [
      | inr e ↦ rw e (h.0, (tt, h.1))
      | inl e ↦
          rw e
            (elim (Bool-cases (env.succeeds (offer_acknowledged k ∷ w.trace) (shown offer peer))) [
              | inl f ↦ rw f (entries w h, (tt, (tt, h.1)))
              | inr f ↦ rw f (entries w h, (tt, (tt, h.1)))
            ])
    ];
  }
    where
      shown : TradeOffer → PeerId → Act
      shown offer peer =
          event_sent (inbound_trade_offer offer.offered_file_name peer offer.requested_file_name)

      entries :
          (w : World)
          → IsRecorded w
          → (key : PeerId × TradeOffer)
          → Dict.get (Dict.insert w.loop.inbound_trade_offers (peer, offer) tt) key ≡ some tt
          → ((peer, offer) ≡ key) ⊎ WasInvited key w.trace
      entries w h key f = elim (Bool-cases ((peer, offer) == key)) [
        | inl e ↦ inl ((pair_eq.beq_iff _ key).0 e)
        | inr e ↦
            inr
              (h.0 key (sym (Dict.get-insert w.loop.inbound_trade_offers _ key tt ∙ rw e refl) ∙ f))
      ]

  own : (i : Input) → Own env IsRecorded i
  own (Run.command (make_trade_offer o b p r f c)) =
      handle_make_trade_offer-Keeps recorded env (λ d w h. h) o b p r f c (λ other id t. tt)
  own (Run.command (respond_trade p r o b c)) = respond-Keeps p r o b c
  own (Run.command (direct_message p m c)) =
      handle_direct_message-Keeps recorded env p m c (λ other id t. tt)
  own (Run.event (Run.put_record_progressed id result)) =
      handle_put_record-Keeps recorded env (λ b w h. h) result id (λ c t. tt)
  own (Run.event Run.routing_updated) =
      handle_kademlia_routing_updated-Keeps recorded env (λ b w h. h) (λ u t. tt)
  own (Run.event (Run.trade_offering_message p (request o k))) = offering-Keeps o k p
  own (Run.event (Run.trade_response_message p (request r k))) =
      handle_trade_response-Keeps recorded env (λ d w h. h) r k p (λ file t. tt)
  own _ = tt

  -- From the start of the event loop on, and whatever comes in whatever order, a response is sent to a
  -- peer, with a file or without, only if that very offer of that very peer was passed on to the user's
  -- task before.
  pub responses-IsInvited :
      (username : String) (rendezvous_peer_id : Option PeerId) (inputs : List Input)
      → Every IsInvited (run env inputs (start (new username rendezvous_peer_id))).1.trace
  unfolding new
  responses-IsInvited username rendezvous_peer_id inputs =
      ((run-Keeps recorded env own inputs).at (start (new username rendezvous_peer_id))
        ((λ key e. cc (Dict.get-empty key)), tt)).1
