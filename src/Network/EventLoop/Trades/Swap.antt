-- ===== src/Network/EventLoop/Trades/Swap.antt =====
-- A whole trade between two peers: the messages that one puts on its trace are the events that the
-- other handles.
use decent_share.Base.{
  ◌≡◌, ◌≢◌, refl, ◌∷◌, ◌++◌, Option, none, some, nat_eq, pair_eq, ok, String, ap,
}
use decent_share.Base.Exec.{◌>>=◌, expect, pure}
use decent_share.Base.Dict
use decent_share.Base.Dict.{Dict}
use decent_share.Network.Message.{
  RequestId, Sender, Channel, Bytes, FilePath, TradeOffer, TradeResponse, TradeResponseResponse,
  offer_eq, request, response, bytes_received, inbound_trade_offer,
}
use decent_share.Network.EventLoop.Env.{
  Env, Trace, offer_sent, response_sent, response_answered, event_sent, offer_acknowledged,
}
use decent_share.Network.EventLoop.State.{World}
use decent_share.Network.EventLoop.Swarm.{
  attempt, attempt_or_panic, modify_loop, send_event, take_pending,
}
use decent_share.Network.EventLoop.Trades.Offers.{
  offered as offered_lem, opened, sent_response, reply-log, told, waits,
}
use decent_share.Network.EventLoop.Commands.{handle_make_trade_offer, handle_respond_trade}
use decent_share.Network.EventLoop.Behaviours.Trading.{
  handle_trade_offering_message, handle_trade_response_message,
}
use decent_share.Network.EventLoop.Trades.{
  IsCooperative, exchange_acts, in_return, trade_response_honoured,
}

-- The message that the last act sent.
abbrev last_offer : Trace → Option TradeOffer
last_offer (offer_sent _ offer _ ∷ _) = some offer
last_offer _ = none

abbrev last_response : Trace → Option (TradeResponse × RequestId)
last_response (response_sent _ r id ∷ _) = some (r, id)
last_response _ = none

abbrev last_answer : Trace → Option TradeResponseResponse
last_answer (response_answered _ r ∷ _) = some r
last_answer _ = none

module _ (alice bob : Env) (o r : String) (offered : Bytes) (path : FilePath) (file : Option Bytes)
    (ca : Sender) (cb : Option Sender) (k l : Channel) where
  -- Bob gets the offer, and responds with `file`.
  respond_to : Option TradeOffer → World → Option World
  respond_to none b = none
  respond_to (some offer) b =
      let seen : World =
        (handle_trade_offering_message bob (request offer k) alice.local_peer_id b).1 in
      some (handle_respond_trade bob alice.local_peer_id r o file cb seen).1

  -- Alice's answer reaches Bob.
  deliver : Option TradeResponseResponse → RequestId → World → World → Option (World × World)
  deliver none id a b = none
  deliver (some answer) id a b =
      some (a, (handle_trade_response_message bob (response answer id) alice.local_peer_id b).1)

  -- Bob's response reaches Alice.
  pay : Option (TradeResponse × RequestId) → World → World → Option (World × World)
  unfolding deliver
  pay none a b = none
  pay (some (r, id)) a b =
      let paid : World =
        (handle_trade_response_message alice (request r l) bob.local_peer_id a).1 in
      deliver (last_answer paid.trace) id paid b

  conclude : World → Option World → Option (World × World)
  unfolding pay
  conclude a none = none
  conclude a (some b) = pay (last_response b.trace) a b

  pub swap : World → World → Option (World × World)
  unfolding conclude respond_to
  swap a b =
      let made : World =
        (handle_make_trade_offer alice o offered bob.local_peer_id r path ca a).1 in
      conclude made (respond_to (last_offer made.trace) b)

  module _ (fair_a : IsCooperative alice) (fair_b : IsCooperative bob)
      (distinct : bob.local_peer_id ≢ alice.local_peer_id) (a b : World) where
    abbrev offer : TradeOffer
    offer = record { offered_file_name = o; requested_file_name = r }

    abbrev offer_id : RequestId
    offer_id = alice.send_offer a.trace bob.local_peer_id offer

    abbrev made : World
    made = record {
      loop = record (a.loop) {
        pending_trade_offer_request = Dict.insert a.loop.pending_trade_offer_request offer_id ca;
        outgoing_trade_offers =
            Dict.insert a.loop.outgoing_trade_offers (bob.local_peer_id, offer) (offered, path);
      };
      trace = offer_sent bob.local_peer_id offer offer_id ∷ a.trace;
    }

    abbrev seen : World
    seen = record {
      loop = record (b.loop) {
        inbound_trade_offers =
            Dict.insert b.loop.inbound_trade_offers (alice.local_peer_id, offer) tt;
      };
      trace =
          event_sent (inbound_trade_offer o alice.local_peer_id r) ∷ offer_acknowledged k ∷ b.trace;
    }

    seen_lem : (handle_trade_offering_message bob (request offer k) alice.local_peer_id b).1 ≡ seen
    unfolding handle_trade_offering_message attempt_or_panic attempt modify_loop send_event ◌>>=◌
        expect
    seen_lem = simp fair_b

    abbrev answered : TradeResponse
    answered = sent_response bob alice.local_peer_id r o file

    abbrev response_id : RequestId
    response_id = bob.send_response seen.trace alice.local_peer_id answered

    abbrev responded : World
    responded = record {
      loop = record (seen.loop) {
        inbound_trade_offers =
            Dict.remove seen.loop.inbound_trade_offers (alice.local_peer_id, offer);
        pending_trade_response_response =
            waits cb response_id b.loop.pending_trade_response_response;
      };
      trace = response_sent alice.local_peer_id answered response_id ∷ seen.trace;
    }

    responded_lem : (handle_respond_trade bob alice.local_peer_id r o file cb seen).1 ≡ responded
    responded_lem =
        opened bob alice.local_peer_id r o file cb seen
          (Dict.get-insert_self b.loop.inbound_trade_offers (alice.local_peer_id, offer) tt)

    abbrev paid : World
    paid = record {
      loop = record (made.loop) {
        outgoing_trade_offers =
            Dict.remove made.loop.outgoing_trade_offers (bob.local_peer_id, offer);
      };
      trace = exchange_acts alice answered l bob.local_peer_id offered path ++ made.trace;
    }

    paid_lem :
        (handle_trade_response_message alice (request answered l) bob.local_peer_id made).1 ≡ paid
    paid_lem =
        ap (λ x. x.1)
          (trade_response_honoured alice fair_a answered l bob.local_peer_id made (
            Dict.get-insert_self a.loop.outgoing_trade_offers (bob.local_peer_id, offer)
              (offered, path)))

    abbrev answer : TradeResponseResponse
    answer = record {
      offered_file_name = o;
      requested_file_name = r;
      offered_file_bytes = in_return file offered;
    }

    -- What Bob does with the answer, by the sender that waits for it.
    concluded_at :
        (o : Option Sender) (w : World)
        → Dict.get w.loop.pending_trade_response_response response_id ≡ o
        → let after =
            (handle_trade_response_message bob
              (response answer response_id)
              alice.local_peer_id
              w).1 in
          (after.trace ≡ told o (bytes_received (ok (in_return file offered))) w.trace)
          × (after.loop.inbound_trade_offers ≡ w.loop.inbound_trade_offers)
    unfolding handle_trade_response_message take_pending pure ◌>>=◌
    concluded_at none w e = rw e (refl, refl)
    concluded_at (some c) w e = rw e (
      ap (λ (v : World). v.trace) (reply-log bob c _ _ _),
      ap (λ (v : World). v.loop.inbound_trade_offers) (reply-log bob c _ _ _),
    )

    awaited :
        (c : Option Sender) (d : Dict RequestId Sender)
        → (c ≡ none → Dict.get d response_id ≡ none)
        → Dict.get (waits c response_id d) response_id ≡ c
    awaited none d quiet = quiet refl
    awaited (some c) d quiet = Dict.get-insert_self d response_id c

    -- Alice offers Bob a trade, Bob gets the offer and responds to it, with the requested file or
    -- without, and with a sender for the answer or, as a decline does, without one, Alice gets the
    -- response, and Bob her answer. If they are different peers, every act that may fail succeeds, and,
    -- where Bob gives no sender, none waits under the new identifier of his response, then the four
    -- messages are all sent. If Bob gave the file, it is written at Alice's path and his sender is told
    -- the offered bytes; if he declined, nothing is written and his sender, if there is one, is told
    -- that there are no bytes. The offer is gone on both sides.
    pub swap_lem :
        (quiet : cb ≡ none → Dict.get b.loop.pending_trade_response_response response_id ≡ none)
        → (a' : World) × (b' : World) × (swap a b ≡ some (a', b'))
          × (a'.trace
              ≡ exchange_acts alice answered l bob.local_peer_id offered path
                ++ (offer_sent bob.local_peer_id offer offer_id ∷ a.trace))
          × (b'.trace
              ≡ told cb
                  (bytes_received (ok (in_return file offered)))
                  (response_sent alice.local_peer_id answered response_id ∷ seen.trace))
          × (Dict.get a'.loop.outgoing_trade_offers (bob.local_peer_id, offer) ≡ none)
          × (Dict.get b'.loop.inbound_trade_offers (alice.local_peer_id, offer) ≡ none)
    unfolding swap
    swap_lem quiet =
        let (concluded, inbound) =
          concluded_at cb responded (awaited cb b.loop.pending_trade_response_response quiet) in
        (
          paid,
          (handle_trade_response_message bob (response answer response_id) alice.local_peer_id
              responded).1,
          rw (
            offered_lem alice o offered bob.local_peer_id r path ca a distinct,
            seen_lem,
            responded_lem,
            paid_lem,
          ),
          refl,
          concluded,
          Dict.get-remove_self made.loop.outgoing_trade_offers (bob.local_peer_id, offer),
          rw inbound
              (Dict.get-remove_self seen.loop.inbound_trade_offers (alice.local_peer_id, offer)),
        )
