-- ===== src/Network/EventLoop/Swarm.antt =====
-- The calls that the handlers of src/network/event_loop make on the swarm, on the channels, on the
-- file system and on the fields of the event loop, as actions. Each of the first kind goes into the
-- trace, and the environment answers.
use decent_share.Base.{ℕ, String, Bool, ◌∷◌, Option, none, some, Result, nat_eq}
use decent_share.Base.{is_some, pair_eq}
use decent_share.Base.Dict
use decent_share.Base.Exec.{Exec, pure, panic, expect, returned, ◌>>=◌}
use decent_share.Network.Message.{
  PeerId, QueryId, RequestId, Sender, Bytes, FilePath, TradeOffer, TradeResponse, DirectMessage,
  PublishError, Event, Reply, offer_eq,
}
use decent_share.Network.EventLoop.Env.{
  Env, Act, stored, queried, offer_sent, response_sent, message_sent, published, event_sent,
  replied,
}
use decent_share.Network.EventLoop.State.{EventLoop, World, Table, pending, with_pending}

abbrev pub Handler : Type 0 → Type 0
Handler A = Exec World A

abbrev pub log : Act → World → World
log act w = record w { trace = act ∷ w.trace }

unfoldable pub modify_loop : (EventLoop → EventLoop) → Handler (Unit {0})
modify_loop f w = (returned tt, record w { loop = f w.loop })

-- `self.pending_….insert(id, sender)`
unfoldable pub put_pending : Table → ℕ → Sender → Handler (Unit {0})
put_pending table id sender w = (
  returned tt,
  record w { loop = with_pending table (Dict.insert (pending table w.loop) id sender) w.loop },
)

-- `self.pending_….remove(&id)`
unfoldable pub take_pending : Table → ℕ → Handler (Option Sender)
take_pending table id w = (
  returned (Dict.get (pending table w.loop) id),
  record w { loop = with_pending table (Dict.remove (pending table w.loop) id) w.loop },
)

-- `self.outgoing_trade_offers.remove(&(peer_id, offer))`
unfoldable pub take_outgoing : PeerId × TradeOffer → Handler (Option (Bytes × FilePath))
take_outgoing key w = (
  returned (Dict.get w.loop.outgoing_trade_offers key),
  record w {
    loop = record (w.loop) { outgoing_trade_offers = Dict.remove w.loop.outgoing_trade_offers key };
  },
)

-- `self.inbound_trade_offers.remove(&(peer_id, offer))`
unfoldable pub take_inbound : PeerId × TradeOffer → Handler Bool
take_inbound key w = (
  returned (is_some (Dict.get w.loop.inbound_trade_offers key)),
  record w {
    loop = record (w.loop) { inbound_trade_offers = Dict.remove w.loop.inbound_trade_offers key };
  },
)

module _ (env : Env) where
  -- An act with no answer.
  unfoldable pub act : Act → Handler (Unit {0})
  act a w = (returned tt, log a w)

  -- An act that may fail.
  unfoldable pub attempt : Act → Handler Bool
  attempt a w = (returned (env.succeeds w.trace a), log a w)

  -- `….expect(message)`
  unfoldable pub attempt_or_panic : Act → String → Handler (Unit {0})
  unfolding attempt expect
  attempt_or_panic a message = do done ← attempt a; expect done message

  unfoldable pub reply : Sender → Reply → String → Handler (Unit {0})
  unfolding attempt_or_panic
  reply sender value message = attempt_or_panic (replied sender value) message

  unfoldable pub send_event : Event → Handler (Unit {0})
  unfolding attempt_or_panic
  send_event event = attempt_or_panic (event_sent event) "Event receiver was dropped"

  or_panic : Option QueryId → Handler QueryId
  or_panic none = panic "Failed to store record locally"
  or_panic (some query_id) = pure query_id

  unfoldable pub put_record : Bytes → Bytes → Handler QueryId
  unfolding or_panic
  put_record key value w =
      let answer : Option QueryId = env.put_record w.trace key value in
      or_panic answer (log (stored key value answer) w)

  unfoldable pub get_record : Bytes → Handler QueryId
  get_record key w =
      let id : QueryId = env.get_record w.trace key in (returned id, log (queried key id) w)

  unfoldable pub send_offer : PeerId → TradeOffer → Handler RequestId
  send_offer peer offer w =
      let id : RequestId = env.send_offer w.trace peer offer in
      (returned id, log (offer_sent peer offer id) w)

  unfoldable pub send_response : PeerId → TradeResponse → Handler RequestId
  send_response peer response w =
      let id : RequestId = env.send_response w.trace peer response in
      (returned id, log (response_sent peer response id) w)

  unfoldable pub send_message : PeerId → DirectMessage → Handler RequestId
  send_message peer message w =
      let id : RequestId = env.send_message w.trace peer message in
      (returned id, log (message_sent peer message id) w)

  unfoldable pub publish : Bytes → Handler (Result (Unit {0}) PublishError)
  publish text w = (returned (env.publish w.trace text), log (published text) w)

  -- `if let Some(sender) = … { sender.send(value).expect(message) }`
  abbrev pub reply_to : Option Sender → Reply → String → Handler (Unit {0})
  reply_to none value message = pure tt
  reply_to (some sender) value message = reply sender value message

  -- The same with an `else`.
  abbrev pub reply_or : Option Sender → Reply → String → Handler (Unit {0}) → Handler (Unit {0})
  reply_or none value message otherwise = otherwise
  reply_or (some sender) value message otherwise = reply sender value message
