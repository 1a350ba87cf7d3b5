-- ===== src/Network/EventLoop/Trades/Sources.antt =====
-- Where the files that leave the event loop come from.
use decent_share.Base.{
  err, ◌≡◌, refl, sym, ◌∙◌, inl, inr, [], ◌∷◌, List, Option, none, some, String, Bool-cases,
  Option-cases, ◌==◌, nat_eq, pair_eq, arith, ℕ, some-eq, subst,
}
use decent_share.Base.Dict
use decent_share.Base.Dict.{Dict}
use decent_share.Base.Exec.{◌>>=◌}
use decent_share.Base.Exec.Keeps.{Keeps, Keeps-then}
use decent_share.Network.Message.{
  PeerId, Sender, Bytes, FilePath, Channel, TradeOffer, TradeResponse, offer_eq, request,
  make_trade_offer, respond_trade, Event, direct_message, self_trade, delivered,
}
use decent_share.Network.EventLoop.Env.{Env, Act, Trace, response_sent, response_answered, replied}
use decent_share.Network.EventLoop.State.{World, Table, registering, new, start, with_pending}
use decent_share.Network.EventLoop.Swarm.{take_outgoing, attempt, attempt_or_panic, send_event}
use decent_share.Network.EventLoop.Commands.{handle_make_trade_offer}
use decent_share.Network.EventLoop.Behaviours.Trading.{
  complete_trade, handle_trade_response_message, exchange, create_parents,
}
use decent_share.Network.EventLoop.Run
use decent_share.Network.EventLoop.Run.{Input, run}
use decent_share.Network.EventLoop.Invariants.{Frame, IsPlain, frame_rules}
use decent_share.Network.EventLoop.Invariants.Handlers.{Own}
use decent_share.Network.EventLoop.Invariants.Own.{
  answer_to, handle_respond_trade-Keeps, handle_direct_message-Keeps, handle_put_record-Keeps,
  handle_kademlia_routing_updated-Keeps, handle_trade_offering-Keeps,
}
use decent_share.Network.EventLoop.Invariants.Steps.{Each, run-Keeps-Each}
use decent_share.Network.EventLoop.Traces.{Every}
use decent_share.Network.EventLoop.Trades.{offer_of}
use decent_share.Network.EventLoop.Trades.Offers.{made, offered, refused}

module _ (Q : Bytes → Type 0) where
  abbrev pub OfFile : Option Bytes → Type 0
  OfFile none = Unit
  OfFile (some b) = Q b

  -- The bytes that a command hands to the event loop.
  abbrev pub IsHandedOver : Input → Type 0
  IsHandedOver (Run.command (make_trade_offer o b p r path c)) = Q b
  IsHandedOver (Run.command (respond_trade p r o file c)) = OfFile file
  IsHandedOver _ = Unit

  -- The bytes that leave for another peer, in a response or in an answer to one.
  abbrev pub IsSourced : Trace → Act → Type 0
  IsSourced t (response_sent p r id) = OfFile r.requested_file_bytes
  IsSourced t (response_answered k r) = OfFile r.offered_file_bytes
  IsSourced t _ = Unit

  abbrev IsRecorded : World → Type 0
  IsRecorded w =
      ((key : PeerId × TradeOffer) (v : Bytes × FilePath)
        → Dict.get w.loop.outgoing_trade_offers key ≡ some v
        → Q v.0)
      × Every IsSourced w.trace

  abbrev IsFree : Act → Type 0
  IsFree a = (t : Trace) → IsSourced t a

  plain-IsFree : (a : Act) → IsPlain a → IsFree a
  plain-IsFree (response_sent p r id) h t = absurd h
  plain-IsFree (response_answered k r) h t = absurd h
  plain-IsFree _ h t = tt

  senders_kept :
      (t : Table) (d : Dict ℕ Sender) (w : World)
      → IsRecorded w
      → IsRecorded (record w { loop = with_pending t d w.loop })
  senders_kept registering d w h = h
  senders_kept _ d w h = h

  recorded : Frame IsRecorded IsFree
  recorded = record {
    plain = plain-IsFree;
    logged = λ a w free h. (h.0, (free w.trace, h.1));
    senders = senders_kept;
    cookies = λ k w h. h;
    discovers = λ k p w e h. (h.0, (tt, h.1));
    registers = λ p w e h. (h.0, (tt, h.1));
  }

  module _ (env : Env) where
    make-Keeps :
        (o : String) (b : Bytes) (peer : PeerId) (r : String) (path : FilePath) (c : Sender)
        → Q b
        → Keeps IsRecorded (handle_make_trade_offer env o b peer r path c)
    make-Keeps o b peer r path c q = record {
      at = λ w h. elim (Bool-cases (peer == env.local_peer_id)) [
        | inl e ↦
            rw (refused env o b peer r path c w ((nat_eq.beq_iff _ _).0 e))
              (recorded.logged (replied c (delivered (err self_trade))) w (λ t. tt) h)
        | inr e ↦
            rw (offered env o b peer r path c w (ground arith))
              ((λ key v f. entries w h key v f), (tt, h.1))
      ];
    }
      where
        entries :
            (w : World)
            → IsRecorded w
            → (key : PeerId × TradeOffer) (v : Bytes × FilePath)
            → Dict.get
                (Dict.insert w.loop.outgoing_trade_offers
                  (peer, made env o b peer r path c w)
                  (b, path))
                key
              ≡ some v
            → Q v.0
        entries w h key v f = elim (Bool-cases ((peer, made env o b peer r path c w) == key)) [
          | inl e ↦
              let same : (b, path) ≡ v = some-eq (
                sym (Dict.get-insert w.loop.outgoing_trade_offers _ key (b, path) ∙ rw e refl)
                ∙ f) in
              subst (λ x. Q x.0) same q
          | inr e ↦
              h.0 key v
                (sym (Dict.get-insert w.loop.outgoing_trade_offers _ key (b, path) ∙ rw e refl) ∙ f)
        ]

    create_parents-Keeps : (p : Option FilePath) → Keeps IsRecorded (create_parents env p)
    unfolding create_parents
    create_parents-Keeps none = search frame_rules
    create_parents-Keeps (some p) = search (frame_rules, recorded)

    -- The answer carries no file, or that of the record.
    answer-Keeps :
        (r : TradeResponse) (file : Option Bytes) (b : Bytes) (path : FilePath) (k : Channel)
        → Q b
        → Keeps IsRecorded (do
          answer ← exchange env file b path
          attempt_or_panic env
              (response_answered k (answer_to r answer))
              "Connection to peer was dropped")
    unfolding exchange attempt_or_panic attempt ◌>>=◌
    answer-Keeps r none b path k q = record { at = λ w h. ground arith }
    answer-Keeps r (some file) b path k q = record {
      at = λ w h. ground (arith, (create_parents-Keeps (env.parent path)).at w h);
    }

    respond-Keeps :
        (r : TradeResponse) (k : Channel) (peer : PeerId)
        → Keeps IsRecorded (handle_trade_response_message env (request r k) peer)
    unfolding handle_trade_response_message take_outgoing complete_trade ◌>>=◌
    respond-Keeps r k peer = record {
      at = λ w h. elim (Option-cases (Dict.get w.loop.outgoing_trade_offers (peer, offer_of r))) [
        | inl e ↦ rw e (remaining w h, h.1)
        | inr (v, e) ↦ rw e (
            (Keeps-then _ _ (told _)
                (answer-Keeps r r.requested_file_bytes v.0 v.1 k (h.0 _ v e))).at
              _ (remaining w h, h.1))
      ];
    }
      where
        told : (e : Event) → Keeps IsRecorded (send_event env e)
        told e = search (frame_rules, recorded)

        remaining :
            (w : World)
            → IsRecorded w
            → (key : PeerId × TradeOffer) (v : Bytes × FilePath)
            → Dict.get (Dict.remove w.loop.outgoing_trade_offers (peer, offer_of r)) key ≡ some v
            → Q v.0
        remaining w h key v f =
            h.0 key v (
              ground
                (arith, f, Dict.get-remove w.loop.outgoing_trade_offers (peer, offer_of r) key))

    own : (i : Input) → IsHandedOver i → Own env IsRecorded i
    own (Run.command (make_trade_offer o b p r f c)) q = make-Keeps o b p r f c q
    own (Run.command (respond_trade p r o b c)) q =
        handle_respond_trade-Keeps recorded env (λ d w h. h) p r o b c
          (λ r e id t. subst OfFile (sym e) q)
    own (Run.command (direct_message p m c)) q =
        handle_direct_message-Keeps recorded env p m c (λ other id t. tt)
    own (Run.event (Run.put_record_progressed id result)) q =
        handle_put_record-Keeps recorded env (λ b w h. h) result id (λ c t. tt)
    own (Run.event Run.routing_updated) q =
        handle_kademlia_routing_updated-Keeps recorded env (λ b w h. h) (λ u t. tt)
    own (Run.event (Run.trade_offering_message p (request o k))) q =
        handle_trade_offering-Keeps recorded env (λ d w h. h) o k p (λ t. tt)
    own (Run.event (Run.trade_response_message p (request r k))) q = respond-Keeps r k p
    own _ q = tt

    each : (inputs : List Input) → Each IsHandedOver inputs → Each (Own env IsRecorded) inputs
    each [] h = tt
    each (i ∷ is) (q, h) = (own i q, each is h)

    -- Whatever is true of all bytes that the commands hand to the event loop is true of all bytes that leave
    -- it for another peer, in a response or in an answer to one. So no file leaves that the user did not
    -- offer or give.
    pub run-IsSourced :
        (username : String) (rendezvous_peer_id : Option PeerId) (inputs : List Input)
        → Each IsHandedOver inputs
        → Every IsSourced (run env inputs (start (new username rendezvous_peer_id))).1.trace
    unfolding new
    run-IsSourced username rendezvous_peer_id inputs given =
        ((run-Keeps-Each recorded env inputs (each inputs given)).at
          (start (new username rendezvous_peer_id)) ((λ key v e. cc (Dict.get-empty key)), tt)).1
