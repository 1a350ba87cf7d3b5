-- ===== src/Network/EventLoop/Replies/Own.antt =====
-- The sender that comes with a command, under that command.
use decent_share.Base.{
  ℕ, String, ◌≡◌, refl, sym, subst, inl, inr, Option, some, ◌==◌, nat_eq, Bool-cases, some-eq,
  Option-cases, pair_eq, is_some,
}
use decent_share.Base.Exec.{returned, ◌>>=◌, ◌>>◌}
use decent_share.Base.Exec.Keeps.{keeps_rules}
use decent_share.Base.Dict
use decent_share.Base.Dict.{Dict}
use decent_share.Network.Message.{
  PeerId, Sender, Bytes, FilePath, TradeOffer, Reply, Command, register_username, find_peer_id,
  find_peer_username, make_trade_offer, respond_trade, send_chat_message, direct_message, offer_eq,
}
use decent_share.Network.EventLoop.Env.{Env, Act, stored}
use decent_share.Network.EventLoop.State.{
  World, Table, registering, peer_ids, usernames, trade_offers, trade_responses, messages,
}
use decent_share.Network.EventLoop.Swarm.{
  Handler, put_pending, take_inbound, reply, put_record, publish,
}
use decent_share.Network.EventLoop.Commands.{
  handle_register_username, handle_find_peer_id, handle_find_peer_username, handle_make_trade_offer,
  handle_respond_trade, handle_send_chat_message, handle_direct_message, handle_command,
}
use decent_share.Network.EventLoop.Replies.{
  IsFresh, Issues, HeldOr, IsTracked, counter, command_sender,
}
use decent_share.Network.EventLoop.Replies.Tables.{
  log-IsTracked, put-IsTracked, put-HeldOr_self, put_after,
}
use decent_share.Network.EventLoop.Replies.Handlers.{
  Holds, Holding, put_record-Holding, outgoing_trade_offers-Holding, reply-Holds,
}
use decent_share.Network.EventLoop.Replies.Asked.{
  Sends, get_record-Sends, send_offer-Sends, send_response-Sends, send_message-Sends,
}

module _ (Z : Type 0) (env : Env) (c : Sender) where
  own-Holds :
      (t : Table) (id : ℕ) (a : Act) (w : World)
      → Issues (counter t) id a
      → IsTracked w
      → Holds Z env c (put_after t id c a w)
  own-Holds t id a w given tracked =
      (put-IsTracked t id c a w tracked given, put-HeldOr_self t id c a w tracked Z)

  replied-IsHeld :
      (v : Reply) (m : String) (w : World) → IsTracked w → HeldOr Z c (reply env c v m w).1
  replied-IsHeld v m w tracked = (reply-Holds Z env c c v m w tracked (inr refl)).1

  module _ (t : Table) (m : Handler ℕ) (sends : Sends (counter t) m) where
    sent-IsHeld :
        (rest : Handler (Unit {0}))
        → Holding Z env c rest
        → (w : World) → IsTracked w
        → HeldOr Z c ((m >>= λ id. put_pending t id c >> rest) w).1
    unfolding put_pending ◌>>=◌
    sent-IsHeld rest next w tracked =
        let (id, a, e, given, new) = sends w in
        rw (e, ◌>>=◌) ((next.at _ (own-Holds t id a w given tracked)).1)

    sent_last-IsHeld : (w : World) → IsTracked w → HeldOr Z c ((m >>= λ id. put_pending t id c) w).1
    unfolding put_pending ◌>>=◌
    sent_last-IsHeld w tracked =
        let (id, a, e, given, new) = sends w in rw (e, ◌>>=◌) ((own-Holds t id a w given tracked).1)

  register-IsHeld :
      (key value : Bytes) (rest : Handler (Unit {0}))
      → Holding Z env c rest
      → (w : World) → IsTracked w
      → let result = (do id ← put_record env key value; put_pending registering id c; rest) w in
        result.0 ≡ returned tt → HeldOr Z c result.1
  unfolding put_record put_pending ◌>>=◌
  register-IsHeld key value rest next w tracked =
      elim (Option-cases (env.put_record w.trace key value)) [
        | inl e ↦ rw (e, put_record) (λ h. cc)
        | inr (id, e) ↦
            rw (e, put_record)
              (λ h.
                (next.at _
                  (own-Holds registering id (stored key value (some id)) w refl tracked)).1)
      ]

  without_inbound-IsTracked :
      (w : World) (inbound : Dict (PeerId × TradeOffer) (Unit {0}))
      → IsTracked w
      → IsTracked (record w { loop = record (w.loop) { inbound_trade_offers = inbound } })
  without_inbound-IsTracked w inbound tracked registering = tracked registering
  without_inbound-IsTracked w inbound tracked messages = tracked messages
  without_inbound-IsTracked w inbound tracked peer_ids = tracked peer_ids
  without_inbound-IsTracked w inbound tracked usernames = tracked usernames
  without_inbound-IsTracked w inbound tracked trade_offers = tracked trade_offers
  without_inbound-IsTracked w inbound tracked trade_responses = tracked trade_responses

  module _ (fresh : IsFresh env) where
    respond-IsHeld :
        (p : PeerId) (r o : String) (b : Option Bytes) (w : World)
        → IsTracked w
        → HeldOr Z c (handle_respond_trade env p r o b (some c) w).1
    unfolding handle_respond_trade take_inbound ◌>>=◌
    respond-IsHeld p r o b w tracked =
        elim (Bool-cases (is_some (Dict.get w.loop.inbound_trade_offers (p, offer)))) [
          | inl e ↦
              rw e (sent_last-IsHeld trade_responses _ (send_response-Sends env fresh p _) _ after)
          | inr e ↦ rw e (replied-IsHeld _ _ _ after)
        ]
      where
        offer : TradeOffer
        offer = record { offered_file_name = o; requested_file_name = r }

        after : IsTracked (record w {
          loop = record (w.loop) {
            inbound_trade_offers = Dict.remove w.loop.inbound_trade_offers (p, offer);
          };
        })
        after = without_inbound-IsTracked w _ tracked

    registered-IsHeld :
        (u : String) (w : World)
        → IsTracked w
        → (handle_register_username env u c w).0 ≡ returned tt
        → HeldOr Z c (handle_register_username env u c w).1
    unfolding handle_register_username
    registered-IsHeld u w tracked =
        register-IsHeld _ _ _ (search (keeps_rules, put_record-Holding)) w tracked

    offer-IsHeld :
        (o : String) (b : Bytes) (p : PeerId) (r : String) (f : FilePath) (w : World)
        → IsTracked w
        → HeldOr Z c (handle_make_trade_offer env o b p r f c w).1
    unfolding handle_make_trade_offer
    offer-IsHeld o b p r f w tracked = elim (Bool-cases (p == env.local_peer_id)) [
      | inl e ↦ rw e (replied-IsHeld _ _ w tracked)
      | inr e ↦ rw e (
          sent-IsHeld trade_offers _ (send_offer-Sends env fresh p _) _
            (outgoing_trade_offers-Holding Z env c _) w tracked)
    ]

    message-IsHeld :
        (p : PeerId) (m : String) (w : World)
        → IsTracked w
        → HeldOr Z c (handle_direct_message env p m c w).1
    unfolding handle_direct_message
    message-IsHeld p m w tracked = elim (Bool-cases (p == env.local_peer_id)) [
      | inl e ↦ rw e (replied-IsHeld _ _ w tracked)
      | inr e ↦ rw e (sent_last-IsHeld messages _ (send_message-Sends env fresh p _) w tracked)
    ]

    chat-IsHeld :
        (m : String) (w : World) → IsTracked w → HeldOr Z c (handle_send_chat_message env m c w).1
    unfolding handle_send_chat_message publish ◌>>=◌
    chat-IsHeld m w tracked = replied-IsHeld _ _ _ (log-IsTracked _ w tracked)

    -- If the handler returns, the sender that came with the command waits or was answered.
    pub handle_command-IsHeld :
        (k : Command) (w : World)
        → command_sender k ≡ some c
        → IsTracked w
        → (handle_command env k w).0 ≡ returned tt
        → HeldOr Z c (handle_command env k w).1
    unfolding handle_command
    handle_command-IsHeld (register_username u d) w e tracked h =
        subst
          (λ x.
            (handle_register_username env u x w).0 ≡ returned tt
            → HeldOr Z c (handle_register_username env u x w).1)
          (sym (some-eq e)) (registered-IsHeld u w tracked) h
    handle_command-IsHeld (find_peer_id u d) w e tracked h = rw (some-eq e) (
        unfold handle_find_peer_id in
        sent_last-IsHeld peer_ids _ (get_record-Sends env fresh _) w tracked)
    handle_command-IsHeld (find_peer_username p d) w e tracked h = rw (some-eq e) (
        unfold handle_find_peer_username in
        sent_last-IsHeld usernames _ (get_record-Sends env fresh _) w tracked)
    handle_command-IsHeld (make_trade_offer o b p r f d) w e tracked h =
        rw (some-eq e) (offer-IsHeld o b p r f w tracked)
    handle_command-IsHeld (respond_trade p r o b d) w e tracked h =
        rw e (respond-IsHeld p r o b w tracked)
    handle_command-IsHeld (send_chat_message m d) w e tracked h =
        rw (some-eq e) (chat-IsHeld m w tracked)
    handle_command-IsHeld (direct_message p m d) w e tracked h =
        rw (some-eq e) (message-IsHeld p m w tracked)
