-- ===== src/Network/EventLoop/Replies/Asked.antt =====
-- The senders of the tables, under the commands of command_handlers.rs.
use decent_share.Base.{
  ℕ, String, ◌≡◌, refl, inl, inr, Option, none, some, ◌==◌, nat_eq, Option-cases, pair_eq,
}
use decent_share.Base.Exec.{returned, ◌>>=◌, ◌>>◌}
use decent_share.Base.Exec.Keeps.{keeps_rules, Keeps-bind, Keeps-if, Keeps-pure}
use decent_share.Network.Message.{
  PeerId, Sender, Bytes, TradeOffer, TradeResponse, DirectMessage, Command, register_username,
  find_peer_id, find_peer_username, make_trade_offer, respond_trade, send_chat_message,
  direct_message, offer_eq,
}
use decent_share.Network.EventLoop.Env.{Env, Act, stored}
use decent_share.Network.EventLoop.State.{
  World, Table, registering, peer_ids, usernames, trade_offers, trade_responses, messages,
}
use decent_share.Network.EventLoop.Swarm.{
  Handler, log, put_pending, put_record, get_record, send_offer, send_response, send_message,
}
use decent_share.Network.EventLoop.Commands.{
  handle_register_username, handle_find_peer_id, handle_find_peer_username, handle_make_trade_offer,
  refuse_trade, await_response, handle_respond_trade, handle_send_chat_message,
  handle_direct_message, handle_command,
}
use decent_share.Network.EventLoop.Replies.{
  Counter, queries, message_requests, offer_requests, response_requests, IsFresh, IsIssued, Issues,
  counter,
}
use decent_share.Network.EventLoop.Replies.Tables.{put-IsTracked, put-HeldOr, put_after}
use decent_share.Network.EventLoop.Replies.Handlers.{
  Holds, Holding, log-Holds, reply-Holding, publish-Holding, put_record-Holding,
  outgoing_trade_offers-Holding, take_inbound-Holding,
}

-- `m` asks the swarm for a new identifier, in one act.
abbrev pub Sends : Counter → Handler ℕ → Type 0
Sends k m =
    (w : World)
    → (id : ℕ) × (a : Act) × (m w ≡ (returned id, log a w))
      × Issues k id a
      × ¬ IsIssued k id w.trace

module _ (env : Env) (fresh : IsFresh env) where
  pub get_record-Sends : (key : Bytes) → Sends queries (get_record env key)
  unfolding get_record
  get_record-Sends key w = (_, _, refl, refl, fresh.get_record w.trace key)

  pub send_offer-Sends : (p : PeerId) (o : TradeOffer) → Sends offer_requests (send_offer env p o)
  unfolding send_offer
  send_offer-Sends p o w = (_, _, refl, refl, fresh.send_offer w.trace p o)

  pub send_response-Sends :
      (p : PeerId) (r : TradeResponse) → Sends response_requests (send_response env p r)
  unfolding send_response
  send_response-Sends p r w = (_, _, refl, refl, fresh.send_response w.trace p r)

  pub send_message-Sends :
      (p : PeerId) (m : DirectMessage) → Sends message_requests (send_message env p m)
  unfolding send_message
  send_message-Sends p m w = (_, _, refl, refl, fresh.send_message w.trace p m)

module _ (Z : Type 0) (env : Env) (c : Sender) where
  put-Holds :
      (t : Table) (id : ℕ) (d : Sender) (a : Act) (w : World)
      → Issues (counter t) id a
      → ¬ IsIssued (counter t) id w.trace
      → Holds Z env c w
      → Holds Z env c (put_after t id d a w)
  put-Holds t id d a w given new (tracked, held) =
      (put-IsTracked t id d a w tracked given, put-HeldOr t id d a w tracked Z c new held)

  module _ (t : Table) (m : Handler ℕ) (sends : Sends (counter t) m) (d : Sender) where
    sent-Holding :
        (rest : Handler (Unit {0}))
        → Holding Z env c rest
        → Holding Z env c (m >>= λ id. put_pending t id d >> rest)
    unfolding put_pending ◌>>=◌
    sent-Holding rest next = record {
      at = λ w h.
          let (id, a, e, given, new) = sends w in
          rw (e, ◌>>=◌) (next.at (put_after t id d a w) (put-Holds t id d a w given new h));
    }

    sent_last-Holding : Holding Z env c (m >>= λ id. put_pending t id d)
    unfolding put_pending ◌>>=◌
    sent_last-Holding = record {
      at = λ w h.
          let (id, a, e, given, new) = sends w in rw (e, ◌>>=◌) (put-Holds t id d a w given new h);
    }

  module _ (fresh : IsFresh env) where
    refuse_trade-Holding :
        (offered requested : String) (d : Option Sender)
        → Holding Z env c (refuse_trade env offered requested d)
    unfolding refuse_trade
    refuse_trade-Holding offered requested none = Keeps-pure tt
    refuse_trade-Holding offered requested (some d) = reply-Holding Z env c d _ _

    respond-Holding :
        (p : PeerId) (r : TradeResponse) (d : Option Sender)
        → Holding Z env c (do id ← send_response env p r; await_response env d id)
    unfolding await_response send_response ◌>>=◌
    respond-Holding p r none = record { at = λ w h. log-Holds Z env c _ w h }
    respond-Holding p r (some d) =
        sent_last-Holding trade_responses (send_response env p r)
          (send_response-Sends env fresh p r) d

    register-Holding :
        (key value : Bytes) (d : Sender) (rest : Handler (Unit {0}))
        → Holding Z env c rest
        → Holding Z env c (do id ← put_record env key value; put_pending registering id d; rest)
    unfolding put_record put_pending ◌>>=◌
    register-Holding key value d rest next = record {
      at = λ w h. elim (Option-cases (env.put_record w.trace key value)) [
        | inl e ↦ rw (e, put_record) (log-Holds Z env c _ w h)
        | inr (id, e) ↦
            rw (e, put_record)
              (next.at _ (
                put-Holds registering id d (stored key value (some id)) w refl
                  (fresh.put_record w.trace key value id e) h))
      ];
    }

    -- No command loses a sender that was held before it.
    pub handle_command-Holding : (k : Command) → Holding Z env c (handle_command env k)
    unfolding handle_command
    handle_command-Holding (register_username u d) =
        unfold handle_register_username in
        register-Holding _ _ d _ (search (keeps_rules, put_record-Holding))
    handle_command-Holding (find_peer_id u d) =
        unfold handle_find_peer_id in sent_last-Holding peer_ids _ (get_record-Sends env fresh _) d
    handle_command-Holding (find_peer_username p d) =
        unfold handle_find_peer_username in
        sent_last-Holding usernames _ (get_record-Sends env fresh _) d
    handle_command-Holding (make_trade_offer o b p r f d) =
        unfold handle_make_trade_offer in
        Keeps-if (p == env.local_peer_id) _ _ (reply-Holding Z env c d _ _) (
          sent-Holding trade_offers _ (send_offer-Sends env fresh p _) d _
            (outgoing_trade_offers-Holding Z env c _))
    handle_command-Holding (respond_trade p r o b d) =
        unfold handle_respond_trade in
        Keeps-bind _ _ (take_inbound-Holding Z env c _)
          (λ open_. Keeps-if open_ _ _ (respond-Holding p _ d) (refuse_trade-Holding o r d))
    handle_command-Holding (send_chat_message m d) =
        unfold handle_send_chat_message in search (keeps_rules, publish-Holding, reply-Holding)
    handle_command-Holding (direct_message p m d) =
        unfold handle_direct_message in
        Keeps-if (p == env.local_peer_id) _ _ (reply-Holding Z env c d _ _)
          (sent_last-Holding messages _ (send_message-Sends env fresh p _) d)
