-- ===== src/Network/EventLoop/Invariants.antt =====
-- Invariants of the event loop: what a statement about its state and its trace has to say of the
-- calls that the handlers share, so that the handlers keep it.
pub mod Handlers
pub mod Own
pub mod Steps
use decent_share.Base.{◌≡◌, ℕ, String, [], ◌∷◌, Option, none, some, Option-cases, inl, inr}
use decent_share.Base.Dict.{Dict}
use decent_share.Base.Exec.{◌>>=◌}
use decent_share.Base.Exec.Keeps.{Keeps, keeps_rules}
use decent_share.Network.Message.{
  PeerId, QueryId, RequestId, Sender, Bytes, Cookie, TradeOffer, TradeResponse, DirectMessage,
  Event, Reply, registration_request, inbound_trade_offer, registered,
}
use decent_share.Network.EventLoop.Env.{
  Env, Act, offer_sent, response_sent, message_sent, response_answered, event_sent, replied, stored,
  queried, published, discovered, registered_at,
}
use decent_share.Network.EventLoop.State.{World, Table, with_pending}
use decent_share.Network.EventLoop.Swarm.{
  Handler, log, modify_loop, put_pending, take_pending, act, attempt, attempt_or_panic, reply,
  send_event, put_record, get_record, send_offer, send_response, send_message, publish, reply_to,
  reply_or,
}

-- The acts that no statement here is about: all but those on offers, on the answers to them, on direct
-- messages, on registrations, and on the rendezvous server.
abbrev pub IsPlain : Act → Type 0
IsPlain (offer_sent _ _ _) = ⊥
IsPlain (response_sent _ _ _) = ⊥
IsPlain (message_sent _ _ _) = ⊥
IsPlain (response_answered _ _) = ⊥
IsPlain (discovered _ _) = ⊥
IsPlain (registered_at _) = ⊥
IsPlain (event_sent (inbound_trade_offer _ _ _)) = ⊥
IsPlain (event_sent (registration_request _)) = ⊥
IsPlain (replied _ (registered _)) = ⊥
IsPlain _ = Unit

-- `P` does not look at the tables of senders nor at the cookie, and it is kept by an act that is `Free`
-- and by a request to the known rendezvous server.
pub record Frame (P : World → Type 0) (Free : Act → Type 0) : Type 0 where
  pub plain : (a : Act) → IsPlain a → Free a
  pub logged : (a : Act) (w : World) → Free a → P w → P (log a w)
  pub senders :
      (t : Table) (d : Dict ℕ Sender) (w : World)
      → P w
      → P (record w { loop = with_pending t d w.loop })
  pub cookies :
      (k : Option Cookie) (w : World) → P w → P (record w { loop = record (w.loop) { cookie = k } })
  pub discovers :
      (k : Option Cookie) (p : PeerId) (w : World)
      → w.loop.rendezvous_peer_id ≡ some p
      → P w
      → P (log (discovered k p) w)
  pub registers :
      (p : PeerId) (w : World)
      → w.loop.rendezvous_peer_id ≡ some p
      → P w
      → P (log (registered_at p) w)

module _ {P : World → Type 0} {Free : Act → Type 0} (frame : Frame P Free) where
  pub put_pending-Keeps : (t : Table) (id : ℕ) (c : Sender) → Keeps P (put_pending t id c)
  unfolding put_pending
  put_pending-Keeps t id c = record { at = λ w h. frame.senders t _ w h }

  pub take_pending-Keeps : (t : Table) (id : ℕ) → Keeps P (take_pending t id)
  unfolding take_pending
  take_pending-Keeps t id = record { at = λ w h. frame.senders t _ w h }

  pub cookie-Keeps : (k : Option Cookie) → Keeps P (modify_loop (λ s. record s { cookie = k }))
  unfolding modify_loop
  cookie-Keeps k = record { at = λ w h. frame.cookies k w h }

  module _ (env : Env) where
    module _ (a : Act) (free : Free a) where
      pub act-Keeps : Keeps P (act env a)
      unfolding act
      act-Keeps = record { at = λ w h. frame.logged a w free h }

      pub attempt-Keeps : Keeps P (attempt env a)
      unfolding attempt
      attempt-Keeps = record { at = λ w h. frame.logged a w free h }

      pub attempt_or_panic-Keeps : (message : String) → Keeps P (attempt_or_panic env a message)
      unfolding attempt_or_panic
      attempt_or_panic-Keeps message = search (keeps_rules, attempt-Keeps)

    pub reply-Keeps :
        (c : Sender) (value : Reply) (message : String)
        → Free (replied c value)
        → Keeps P (reply env c value message)
    unfolding reply
    reply-Keeps c value message free = attempt_or_panic-Keeps (replied c value) free message

    pub send_event-Keeps : (e : Event) → Free (event_sent e) → Keeps P (send_event env e)
    unfolding send_event
    send_event-Keeps e free = attempt_or_panic-Keeps (event_sent e) free _

    pub put_record-Keeps : (key value : Bytes) → Keeps P (put_record env key value)
    unfolding put_record ◌>>=◌
    put_record-Keeps key value = record {
      at = λ w h. elim (Option-cases (env.put_record w.trace key value)) [
        | inl e ↦ rw e (frame.logged (stored key value none) w (frame.plain _ tt) h)
        | inr (id, e) ↦ rw e (frame.logged (stored key value (some id)) w (frame.plain _ tt) h)
      ];
    }

    pub get_record-Keeps : (key : Bytes) → Keeps P (get_record env key)
    unfolding get_record
    get_record-Keeps key = record {
      at = λ w h. frame.logged (queried key _) w (frame.plain _ tt) h;
    }

    pub publish-Keeps : (text : Bytes) → Keeps P (publish env text)
    unfolding publish
    publish-Keeps text = record { at = λ w h. frame.logged (published text) w (frame.plain _ tt) h }

    pub send_offer-Keeps :
        (peer : PeerId) (o : TradeOffer)
        → ((id : RequestId) → Free (offer_sent peer o id))
        → Keeps P (send_offer env peer o)
    unfolding send_offer
    send_offer-Keeps peer o free = record {
      at = λ w h. frame.logged (offer_sent peer o _) w (free _) h;
    }

    pub send_message-Keeps :
        (peer : PeerId) (m : DirectMessage)
        → ((id : RequestId) → Free (message_sent peer m id))
        → Keeps P (send_message env peer m)
    unfolding send_message
    send_message-Keeps peer m free = record {
      at = λ w h. frame.logged (message_sent peer m _) w (free _) h;
    }

    pub send_response-Keeps :
        (peer : PeerId) (r : TradeResponse)
        → ((id : RequestId) → Free (response_sent peer r id))
        → Keeps P (send_response env peer r)
    unfolding send_response
    send_response-Keeps peer r free = record {
      at = λ w h. frame.logged (response_sent peer r _) w (free _) h;
    }

    pub reply_to-Keeps :
        (c : Option Sender) (value : Reply) (message : String)
        → ((d : Sender) → Free (replied d value))
        → Keeps P (reply_to env c value message)
    reply_to-Keeps none value message free = search keeps_rules
    reply_to-Keeps (some c) value message free = reply-Keeps c value message (free c)

    pub reply_or-Keeps :
        (c : Option Sender) (value : Reply) (message : String) (m : Handler (Unit {0}))
        → ((d : Sender) → Free (replied d value))
        → Keeps P m
        → Keeps P (reply_or env c value message m)
    reply_or-Keeps none value message m free h = h
    reply_or-Keeps (some c) value message m free h = reply-Keeps c value message (free c)

pub ruleset frame_rules = (
  keeps_rules, put_pending-Keeps, take_pending-Keeps, cookie-Keeps, act-Keeps, attempt-Keeps,
  attempt_or_panic-Keeps, reply-Keeps, send_event-Keeps, put_record-Keeps, get_record-Keeps,
  publish-Keeps, send_offer-Keeps, send_message-Keeps, send_response-Keeps, reply_to-Keeps,
  reply_or-Keeps, tt,
)
