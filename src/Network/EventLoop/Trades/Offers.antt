-- ===== src/Network/EventLoop/Trades/Offers.antt =====
-- `handle_make_trade_offer` and `handle_respond_trade` of command_handlers.rs.
use decent_share.Base.{
  ◌≡◌, ◌≢◌, refl, ◌∷◌, Option, none, some, ◌==◌, nat_eq, pair_eq, arith, if◌then◌else◌, Bool-cases,
  err, is_some, ==-ne, ==-refl, String, ap, inl, inr,
}
use decent_share.Base.Exec.{◌>>=◌, expect, pure}
use decent_share.Base.Dict
use decent_share.Base.Dict.{Dict}
use decent_share.Network.Message.{
  PeerId, RequestId, Sender, Bytes, FilePath, TradeOffer, TradeResponse, offer_eq, delivered,
  bytes_received, no_valid_trade, self_trade, Reply,
}
use decent_share.Network.EventLoop.Env.{Env, Trace, offer_sent, response_sent, replied}
use decent_share.Network.EventLoop.State.{World}
use decent_share.Network.EventLoop.Swarm.{
  take_inbound, attempt, attempt_or_panic, reply, log, put_pending, send_offer, send_response,
  modify_loop,
}
use decent_share.Network.EventLoop.Commands.{
  handle_make_trade_offer, refuse_trade, await_response, handle_respond_trade,
}

-- Whether the receiver is there or not, the trace has the answer and nothing else changes.
pub reply-log :
    (env : Env) (c : Sender) (v : Reply) (m : String) (w : World)
    → (reply env c v m w).1 ≡ log (replied c v) w
unfolding reply attempt_or_panic attempt expect ◌>>=◌
reply-log env c v m w = ground arith

-- An answer to a sender, if there is one.
abbrev pub told : Option Sender → Reply → Trace → Trace
told none v t = t
told (some c) v t = replied c v ∷ t

-- Under the identifier, the sender, if there is one, waits from now on.
abbrev pub waits : Option Sender → RequestId → Dict RequestId Sender → Dict RequestId Sender
waits none id d = d
waits (some c) id d = Dict.insert d id c

abbrev pub or_else : Option Sender → Option Sender → Option Sender
or_else none o = o
or_else (some c) o = some c

get-waits :
    (c : Option Sender) (id j : RequestId) (d : Dict RequestId Sender)
    → Dict.get (waits c id d) j ≡ (if id == j then or_else c (Dict.get d j) else Dict.get d j)
get-waits none id j d = ground arith
get-waits (some c) id j d = Dict.get-insert d id j c

module _ (env : Env) where
  module _ (o : String) (b : Bytes) (peer : PeerId) (r : String) (path : FilePath) (c : Sender)
      (w : World) where
    abbrev pub made : TradeOffer
    made = record { offered_file_name = o; requested_file_name = r }

    pub offered :
        peer ≢ env.local_peer_id
        → (handle_make_trade_offer env o b peer r path c w).1 ≡ record {
          loop = record (w.loop) {
            pending_trade_offer_request =
                Dict.insert w.loop.pending_trade_offer_request (env.send_offer w.trace peer made) c;
            outgoing_trade_offers = Dict.insert w.loop.outgoing_trade_offers (peer, made) (b, path);
          };
          trace = offer_sent peer made (env.send_offer w.trace peer made) ∷ w.trace;
        }
    unfolding handle_make_trade_offer send_offer put_pending modify_loop ◌>>=◌
    offered other = rw (==-ne peer env.local_peer_id other)

    pub refused :
        peer ≡ env.local_peer_id
        → (handle_make_trade_offer env o b peer r path c w).1
          ≡ log (replied c (delivered (err self_trade))) w
    unfolding handle_make_trade_offer
    refused self = rw (self, ==-refl env.local_peer_id) (reply-log env c _ _ w)

    -- An offer to the peer itself is refused: the error goes to its sender, nothing else is done, and
    -- the event loop is as before.
    pub make_trade_offer_refused :
        peer ≡ env.local_peer_id
        → (handle_make_trade_offer env o b peer r path c w).1
          ≡ record { loop = w.loop; trace = replied c (delivered (err self_trade)) ∷ w.trace }
    make_trade_offer_refused self = refused self

    -- An offer to another peer is sent to it, is recorded with the offered bytes and the path for the
    -- requested file, and leaves every other recorded offer as it was; its sender waits under the
    -- identifier of the request.
    pub make_trade_offer_lem :
        (key : PeerId × TradeOffer)
        → peer ≢ env.local_peer_id
        → let after = (handle_make_trade_offer env o b peer r path c w).1 in
          (Dict.get after.loop.outgoing_trade_offers key ≡ (
            if (peer, made) == key
            then some (b, path)
            else Dict.get w.loop.outgoing_trade_offers key))
          × (after.trace ≡ offer_sent peer made (env.send_offer w.trace peer made) ∷ w.trace)
          × (Dict.get after.loop.pending_trade_offer_request (env.send_offer w.trace peer made)
              ≡ some c)
    make_trade_offer_lem key other = rw (offered other) (
      Dict.get-insert w.loop.outgoing_trade_offers (peer, made) key (b, path),
      refl,
      Dict.get-insert_self w.loop.pending_trade_offer_request _ c,
    )

  -- The key of the trade that a response is about.
  abbrev pub key_of : PeerId → String → String → PeerId × TradeOffer
  key_of peer r o = (peer, record { offered_file_name = o; requested_file_name = r })

  module _ (peer : PeerId) (r o : String) (file : Option Bytes) where
    abbrev pub sent_response : TradeResponse
    sent_response = record {
      requested_file_name = r;
      offered_file_name = o;
      requested_file_bytes = file;
    }

    closed :
        (c : Option Sender) (w : World)
        → Dict.get w.loop.inbound_trade_offers (key_of peer r o) ≡ none
        → (handle_respond_trade env peer r o file c w).1.trace
          ≡ told c (bytes_received (err (no_valid_trade o r))) w.trace
    unfolding handle_respond_trade take_inbound refuse_trade pure ◌>>=◌
    closed none w e = rw e refl
    closed (some c) w e = rw e (ap (λ (v : World). v.trace) (reply-log env c _ _ _))

    pub opened :
        (c : Option Sender) (w : World)
        → Dict.get w.loop.inbound_trade_offers (key_of peer r o) ≡ some tt
        → (handle_respond_trade env peer r o file c w).1 ≡ record {
          loop = record (w.loop) {
            inbound_trade_offers = Dict.remove w.loop.inbound_trade_offers (key_of peer r o);
            pending_trade_response_response =
                waits c
                  (env.send_response w.trace peer sent_response)
                  w.loop.pending_trade_response_response;
          };
          trace =
              response_sent peer sent_response (env.send_response w.trace peer sent_response)
              ∷ w.trace;
        }
    unfolding handle_respond_trade take_inbound ◌>>=◌ send_response await_response put_pending pure
    opened none w e = rw e
    opened (some c) w e = rw e

    -- What remains of the open offers.
    inbound-respond :
        (d : Option Sender) (w : World)
        → (handle_respond_trade env peer r o file d w).1.loop.inbound_trade_offers
          ≡ Dict.remove w.loop.inbound_trade_offers (key_of peer r o)
    unfolding handle_respond_trade take_inbound ◌>>=◌ send_response await_response put_pending
        refuse_trade
    inbound-respond none w =
        elim (Bool-cases (is_some (Dict.get w.loop.inbound_trade_offers (key_of peer r o)))) [
          | inl e ↦ rw e
          | inr e ↦ rw e
        ]
    inbound-respond (some c) w =
        elim (Bool-cases (is_some (Dict.get w.loop.inbound_trade_offers (key_of peer r o)))) [
          | inl e ↦ rw e
          | inr e ↦ rw e (ap (λ (v : World). v.loop.inbound_trade_offers) (reply-log env c _ _ _))
        ]

  -- A response to an open offer, an acceptance or a decline, is sent to the peer that made it, with the
  -- file or without. Its sender, if it has one, waits under the identifier of the request, and all other
  -- waiting senders stay. The offer is closed, and every other open offer stays.
  pub respond_trade_lem :
      (peer : PeerId) (r o : String) (file : Option Bytes) (c : Option Sender) (w : World)
      (key : PeerId × TradeOffer) (j : RequestId)
      → Dict.get w.loop.inbound_trade_offers (key_of peer r o) ≡ some tt
      → let after = (handle_respond_trade env peer r o file c w).1 in
        let id = env.send_response w.trace peer (sent_response peer r o file) in
        let before = Dict.get w.loop.pending_trade_response_response j in
        (after.trace ≡ response_sent peer (sent_response peer r o file) id ∷ w.trace)
        × (Dict.get after.loop.pending_trade_response_response j
            ≡ (if id == j then or_else c before else before))
        × (Dict.get after.loop.inbound_trade_offers key
            ≡ (if key_of peer r o == key then none else Dict.get w.loop.inbound_trade_offers key))
  respond_trade_lem peer r o file c w key j e = rw (opened peer r o file c w e) (
    refl,
    get-waits c _ j w.loop.pending_trade_response_response,
    Dict.get-remove w.loop.inbound_trade_offers (key_of peer r o) key,
  )

  -- An offer is answered at most once: after a response of any kind to it, accepted or declined,
  -- refused or sent, and even if a handler panicked, the next response to the same offer, accepted or
  -- declined, sends nothing to the peer, unless the peer makes the offer again; its sender, if it has
  -- one, is told an error.
  pub respond_trade_once :
      (peer : PeerId) (r o : String) (file file' : Option Bytes) (d c : Option Sender) (w : World)
      → let first = (handle_respond_trade env peer r o file d w).1 in
        (handle_respond_trade env peer r o file' c first).1.trace
        ≡ told c (bytes_received (err (no_valid_trade o r))) first.trace
  respond_trade_once peer r o file file' d c w = closed peer r o file' c _ (
      rw (inbound-respond peer r o file d w)
        (Dict.get-remove_self w.loop.inbound_trade_offers (key_of peer r o)))
