-- ===== src/Network/EventLoop/Trades/Paid.antt =====
-- Which files leave the event loop: those that answers carry, against the offers that were sent.
use decent_share.Base.{
  err, ◌≡◌, refl, sym, ◌∙◌, ◌⊎◌, inl, inr, [], ◌∷◌, List, Option, none, some, String, Bool-cases,
  Option-cases, ◌==◌, nat_eq, pair_eq, arith, ℕ,
}
use decent_share.Base.Dict
use decent_share.Base.Dict.{Dict}
use decent_share.Base.Exec.{◌>>=◌}
use decent_share.Base.Exec.Keeps.{Keeps}
use decent_share.Network.Message.{
  PeerId, Sender, Bytes, FilePath, Channel, TradeOffer, TradeResponse, TradeResponseResponse,
  offer_eq, request, make_trade_offer, respond_trade, direct_message, self_trade, delivered,
}
use decent_share.Network.EventLoop.Env.{Env, Act, Trace, offer_sent, response_answered, replied}
use decent_share.Network.EventLoop.State.{World, Table, registering, new, start, with_pending}
use decent_share.Network.EventLoop.Swarm.{take_outgoing}
use decent_share.Network.EventLoop.Commands.{handle_make_trade_offer}
use decent_share.Network.EventLoop.Behaviours.Trading.{
  complete_trade, handle_trade_response_message,
}
use decent_share.Network.EventLoop.Run
use decent_share.Network.EventLoop.Run.{Input, run}
use decent_share.Network.EventLoop.Invariants.{Frame, IsPlain}
use decent_share.Network.EventLoop.Invariants.Handlers.{Own}
use decent_share.Network.EventLoop.Invariants.Own.{
  complete_trade-Keeps, handle_respond_trade-Keeps, handle_direct_message-Keeps,
  handle_put_record-Keeps, handle_kademlia_routing_updated-Keeps, handle_trade_offering-Keeps,
}
use decent_share.Network.EventLoop.Invariants.Steps.{run-Keeps}
use decent_share.Network.EventLoop.Traces.{Every}
use decent_share.Network.EventLoop.Trades.{offer_of}
use decent_share.Network.EventLoop.Trades.Offers.{made, offered, refused}

-- The offer was sent to the peer.
abbrev pub WasOffered : PeerId × TradeOffer → Trace → Type 0
WasOffered key [] = ⊥
WasOffered key (offer_sent peer offer _ ∷ t) = ((peer, offer) ≡ key) ⊎ WasOffered key t
WasOffered key (_ ∷ t) = WasOffered key t

-- The offer that an answer names.
abbrev pub answered_offer : TradeResponseResponse → TradeOffer
answered_offer r = record {
  offered_file_name = r.offered_file_name;
  requested_file_name = r.requested_file_name;
}

-- An answer carries a file only of an offer that was sent before.
abbrev pub IsOwed : Trace → Act → Type 0
IsOwed t (response_answered _ r) =
    (r.offered_file_bytes ≡ none) ⊎ ((peer : PeerId) × WasOffered (peer, answered_offer r) t)
IsOwed t _ = Unit

later :
    (key : PeerId × TradeOffer) (a : Act) (t : Trace) → WasOffered key t → WasOffered key (a ∷ t)
later key (offer_sent peer offer id) t h = inr h
later key _ t h = h

abbrev IsRecorded : World → Type 0
IsRecorded w =
    ((key : PeerId × TradeOffer) (v : Bytes × FilePath)
      → Dict.get w.loop.outgoing_trade_offers key ≡ some v
      → WasOffered key w.trace)
    × Every IsOwed w.trace

abbrev IsFree : Act → Type 0
IsFree a = (t : Trace) → IsOwed t a

plain-IsFree : (a : Act) → IsPlain a → IsFree a
plain-IsFree (response_answered channel r) h t = absurd h
plain-IsFree _ h t = tt

senders_kept :
    (t : Table) (d : Dict ℕ Sender) (w : World)
    → IsRecorded w
    → IsRecorded (record w { loop = with_pending t d w.loop })
senders_kept registering d w h = h
senders_kept _ d w h = h

recorded : Frame IsRecorded IsFree
recorded = record {
  plain = plain-IsFree;
  logged = λ a w free h. ((λ key v e. later key a w.trace (h.0 key v e)), (free w.trace, h.1));
  senders = senders_kept;
  cookies = λ k w h. h;
  discovers = λ k p w e h. (h.0, (tt, h.1));
  registers = λ p w e h. (h.0, (tt, h.1));
}

-- While an offer is answered, that it was sent is known too.
abbrev IsAnswering : PeerId × TradeOffer → World → Type 0
IsAnswering key w = IsRecorded w × WasOffered key w.trace

abbrev IsFreeFor : PeerId × TradeOffer → Act → Type 0
IsFreeFor key a = (t : Trace) → WasOffered key t → IsOwed t a

answering : (key : PeerId × TradeOffer) → Frame (IsAnswering key) (IsFreeFor key)
answering key = record {
  plain = λ a h t o. plain-IsFree a h t;
  logged = λ a w free h. (
    ((λ k v e. later k a w.trace (h.0.0 k v e)), (free w.trace h.1, h.0.1)),
    later key a w.trace h.1,
  );
  senders = λ t d w h. (senders_kept t d w h.0, h.1);
  cookies = λ k w h. h;
  discovers = λ k p w e h. ((h.0.0, (tt, h.0.1)), h.1);
  registers = λ p w e h. ((h.0.0, (tt, h.0.1)), h.1);
}

module _ (env : Env) where
  make-Keeps :
      (o : String) (b : Bytes) (peer : PeerId) (r : String) (path : FilePath) (c : Sender)
      → Keeps IsRecorded (handle_make_trade_offer env o b peer r path c)
  make-Keeps o b peer r path c = record {
    at = λ w h. elim (Bool-cases (peer == env.local_peer_id)) [
      | inl e ↦
          rw (refused env o b peer r path c w ((nat_eq.beq_iff _ _).0 e))
            (recorded.logged (replied c (delivered (err self_trade))) w (λ t. tt) h)
      | inr e ↦
          rw (offered env o b peer r path c w (ground arith))
            ((λ key v f. entries w h key v f), (tt, h.1))
    ];
  }
    where
      entries :
          (w : World)
          → IsRecorded w
          → (key : PeerId × TradeOffer) (v : Bytes × FilePath)
          → Dict.get
              (Dict.insert w.loop.outgoing_trade_offers
                (peer, made env o b peer r path c w)
                (b, path))
              key
            ≡ some v
          → ((peer, made env o b peer r path c w) ≡ key) ⊎ WasOffered key w.trace
      entries w h key v f = elim (Bool-cases ((peer, made env o b peer r path c w) == key)) [
        | inl e ↦ inl ((pair_eq.beq_iff _ key).0 e)
        | inr e ↦ inr (
            h.0 key v
              (sym (Dict.get-insert w.loop.outgoing_trade_offers _ key (b, path) ∙ rw e refl) ∙ f))
      ]

  -- A response takes the offer out of the record, so that it was sent before.
  respond-Keeps :
      (r : TradeResponse) (k : Channel) (peer : PeerId)
      → Keeps IsRecorded (handle_trade_response_message env (request r k) peer)
  unfolding handle_trade_response_message take_outgoing ◌>>=◌
  respond-Keeps r k peer = record {
    at = λ w h. elim (Option-cases (Dict.get w.loop.outgoing_trade_offers (peer, offer_of r))) [
      | inl e ↦ rw e (unfold complete_trade in (remaining w h, h.1))
      | inr (v, e) ↦ rw e (
          ((complete_trade-Keeps (answering (peer, offer_of r)) env (some v) r k peer
              (λ file t o. inr (peer, o))).at
            _ ((remaining w h, h.1), h.0 _ v e)).0)
    ];
  }
    where
      remaining :
          (w : World)
          → IsRecorded w
          → (key : PeerId × TradeOffer) (v : Bytes × FilePath)
          → Dict.get (Dict.remove w.loop.outgoing_trade_offers (peer, offer_of r)) key ≡ some v
          → WasOffered key w.trace
      remaining w h key v f =
          h.0 key v
            (ground (arith, f, Dict.get-remove w.loop.outgoing_trade_offers (peer, offer_of r) key))

  own : (i : Input) → Own env IsRecorded i
  own (Run.command (make_trade_offer o b p r f c)) = make-Keeps o b p r f c
  own (Run.command (respond_trade p r o b c)) =
      handle_respond_trade-Keeps recorded env (λ d w h. h) p r o b c (λ a e id t. tt)
  own (Run.command (direct_message p m c)) =
      handle_direct_message-Keeps recorded env p m c (λ other id t. tt)
  own (Run.event (Run.put_record_progressed id result)) =
      handle_put_record-Keeps recorded env (λ b w h. h) result id (λ c t. tt)
  own (Run.event Run.routing_updated) =
      handle_kademlia_routing_updated-Keeps recorded env (λ b w h. h) (λ u t. tt)
  own (Run.event (Run.trade_offering_message p (request o k))) =
      handle_trade_offering-Keeps recorded env (λ d w h. h) o k p (λ t. tt)
  own (Run.event (Run.trade_response_message p (request r k))) = respond-Keeps r k p
  own _ = tt

  -- From the start of the event loop on, and whatever comes in whatever order, an answer carries a file
  -- only if an offer with the same two file names was sent to some peer before.
  pub answers-IsOwed :
      (username : String) (rendezvous_peer_id : Option PeerId) (inputs : List Input)
      → Every IsOwed (run env inputs (start (new username rendezvous_peer_id))).1.trace
  unfolding new
  answers-IsOwed username rendezvous_peer_id inputs =
      ((run-Keeps recorded env own inputs).at (start (new username rendezvous_peer_id))
        ((λ key v e. cc (Dict.get-empty key)), tt)).1
