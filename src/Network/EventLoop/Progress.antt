-- ===== src/Network/EventLoop/Progress.antt =====
-- The panics of the event loop: the `expect`s and `unwrap`s of its handlers, and what they rest on.
pub mod Parts
pub mod Steps
use decent_share.Base.{
  ℕ, String, ◌≡◌, refl, ap, ◌∙◌, Option, none, some, Bool, true, false, if◌then◌else◌, arith,
  nat_eq, ◌∷◌, [], List,
}
use decent_share.Base.Exec.{
  Exec, Outcome, returned, panicked, pure, gets, expect, continue, ◌>>=◌, ◌>>◌,
}
use decent_share.Base.Dict
use decent_share.Network.Message.{
  PeerId, QueryId, Sender, Bytes, TradeOffer, TradeResponse, DirectMessage, Event, Reply, response,
}
use decent_share.Network.EventLoop.Env.{Env, Act, Trace, event_sent, replied}
use decent_share.Network.EventLoop.State.{EventLoop, World, Table}
use decent_share.Network.EventLoop.Swarm.{
  modify_loop, put_pending, take_pending, take_outgoing, take_inbound, act, attempt,
  attempt_or_panic, reply, send_event, put_record, get_record, send_offer, send_response,
  send_message, publish, reply_to, reply_or, Handler,
}
use decent_share.Network.EventLoop.Run.{
  Input, event, step, direct_messaging_message, direct_messaging_outbound_failure,
}
use decent_share.Network.EventLoop.Trades.{IsCooperative}

-- The local record store takes every record.
abbrev pub HasRoom : Env → Type 0
HasRoom env =
    (t : Trace) (key value : Bytes) → (id : QueryId) × (env.put_record t key value ≡ some id)

-- The answer or the failure of a direct message is one that a sender waits for. All other inputs may
-- come at any time.
abbrev pub IsExpected : Input → World → Type 0
IsExpected (event (direct_messaging_message _ (response _ id))) w =
    (c : Sender) × (Dict.get w.loop.pending_request_message id ≡ some c)
IsExpected (event (direct_messaging_outbound_failure id _)) w =
    (c : Sender) × (Dict.get w.loop.pending_request_message id ≡ some c)
IsExpected _ w = Unit

-- Each input is expected when it comes, if all before it were handled.
abbrev pub AllExpected : Env → List Input → World → Type 0
AllExpected env [] w = Unit
AllExpected env (i ∷ is) w = IsExpected i w × AllExpected env is (step env i w).1

-- `m` returns, from every state.
pub record Returns {S A : Type 0} (m : Exec S A) : Type 0 where
  pub at : (s : S) → (a : A) × ((m s).0 ≡ returned a)

module _ {S A : Type 0} where
  pub Returns-pure : (a : A) → Returns {S = S} (pure a)
  unfolding pure
  Returns-pure a = record { at = λ s. (a, refl) }

  pub Returns-gets : (f : S → A) → Returns (gets f)
  unfolding gets
  Returns-gets f = record { at = λ s. (f s, refl) }

  pub Returns-if :
      (b : Bool) (m n : Exec S A) → Returns m → Returns n → Returns (if b then m else n)
  Returns-if true m n hm hn = hm
  Returns-if false m n hm hn = hn

module _ {S A B : Type 0} where
  pub bind_returns :
      (m : Exec S A) (f : A → Exec S B) (s : S) (a : A)
      → (m s).0 ≡ returned a
      → ((m >>= f) s).0 ≡ (f a (m s).1).0
  unfolding ◌>>=◌
  bind_returns m f s a e = rw e refl

  pub Returns-bind :
      (m : Exec S A) (f : A → Exec S B) → Returns m → ((a : A) → Returns (f a)) → Returns (m >>= f)
  Returns-bind m f hm hf = record {
    at = λ s.
        let (a, e) = hm.at s in let (b, e') = (hf a).at (m s).1 in (b, bind_returns m f s a e ∙ e');
  }

module _ {S B : Type 0} where
  pub Returns-then :
      (m : Exec S (Unit {0})) (n : Exec S B) → Returns m → Returns n → Returns (m >> n)
  Returns-then m n hm hn = Returns-bind m (λ _. n) hm (λ _. hn)

pub modify_loop-Returns : (f : EventLoop → EventLoop) → Returns (modify_loop f)
unfolding modify_loop
modify_loop-Returns f = record { at = λ w. (tt, refl) }

pub put_pending-Returns : (t : Table) (id : ℕ) (c : Sender) → Returns (put_pending t id c)
unfolding put_pending
put_pending-Returns t id c = record { at = λ w. (tt, refl) }

pub take_pending-Returns : (t : Table) (id : ℕ) → Returns (take_pending t id)
unfolding take_pending
take_pending-Returns t id = record { at = λ w. (_, refl) }

pub take_outgoing-Returns : (key : PeerId × TradeOffer) → Returns (take_outgoing key)
unfolding take_outgoing
take_outgoing-Returns key = record { at = λ w. (_, refl) }

pub take_inbound-Returns : (key : PeerId × TradeOffer) → Returns (take_inbound key)
unfolding take_inbound
take_inbound-Returns key = record { at = λ w. (_, refl) }

module _ (env : Env) where
  pub act-Returns : (a : Act) → Returns (act env a)
  unfolding act
  act-Returns a = record { at = λ w. (tt, refl) }

  pub attempt-Returns : (a : Act) → Returns (attempt env a)
  unfolding attempt
  attempt-Returns a = record { at = λ w. (_, refl) }

  pub get_record-Returns : (key : Bytes) → Returns (get_record env key)
  unfolding get_record
  get_record-Returns key = record { at = λ w. (_, refl) }

  pub send_offer-Returns : (p : PeerId) (o : TradeOffer) → Returns (send_offer env p o)
  unfolding send_offer
  send_offer-Returns p o = record { at = λ w. (_, refl) }

  pub send_response-Returns : (p : PeerId) (r : TradeResponse) → Returns (send_response env p r)
  unfolding send_response
  send_response-Returns p r = record { at = λ w. (_, refl) }

  pub send_message-Returns : (p : PeerId) (m : DirectMessage) → Returns (send_message env p m)
  unfolding send_message
  send_message-Returns p m = record { at = λ w. (_, refl) }

  pub publish-Returns : (text : Bytes) → Returns (publish env text)
  unfolding publish
  publish-Returns text = record { at = λ w. (_, refl) }

  module _ (cooperative : IsCooperative env) where
    pub attempt_or_panic-Returns : (a : Act) (m : String) → Returns (attempt_or_panic env a m)
    unfolding attempt_or_panic attempt ◌>>=◌ expect
    attempt_or_panic-Returns a m = record { at = λ w. rw (cooperative w.trace a) (tt, refl) }

    pub reply-Returns : (c : Sender) (v : Reply) (m : String) → Returns (reply env c v m)
    unfolding reply
    reply-Returns c v m = attempt_or_panic-Returns (replied c v) m

    pub send_event-Returns : (e : Event) → Returns (send_event env e)
    unfolding send_event
    send_event-Returns e = attempt_or_panic-Returns (event_sent e) _

    pub reply_to-Returns :
        (c : Option Sender) (v : Reply) (m : String) → Returns (reply_to env c v m)
    reply_to-Returns none v m = Returns-pure tt
    reply_to-Returns (some c) v m = reply-Returns c v m

    pub reply_or-Returns :
        (c : Option Sender) (v : Reply) (m : String) (n : Handler (Unit {0}))
        → Returns n
        → Returns (reply_or env c v m n)
    reply_or-Returns none v m n h = h
    reply_or-Returns (some c) v m n h = reply-Returns c v m

  pub put_record-Returns : HasRoom env → (key value : Bytes) → Returns (put_record env key value)
  unfolding put_record ◌>>=◌
  put_record-Returns room key value = record {
    at = λ w. let (id, e) = room w.trace key value in rw (e, put_record) (id, refl);
  }

pub ruleset returns_rules = (
  Returns-pure, Returns-gets, Returns-if, Returns-bind, modify_loop-Returns, put_pending-Returns,
  take_pending-Returns, take_outgoing-Returns, take_inbound-Returns, act-Returns, attempt-Returns,
  get_record-Returns, send_offer-Returns, send_response-Returns, send_message-Returns,
  publish-Returns, attempt_or_panic-Returns, reply-Returns, send_event-Returns, reply_to-Returns,
  reply_or-Returns, put_record-Returns,
)
