-- ===== src/Network/EventLoop/Conversations.antt =====
-- Direct messages from one peer to another: what the one sends is what the other handles.
use decent_share.Base.{◌≡◌, ◌≢◌, refl, ◌∷◌, none, ok, String, nat_eq, ==-ne}
use decent_share.Base.Dict
use decent_share.Base.Exec.{expect, ◌>>=◌}
use decent_share.Network.Message.{
  Sender, Channel, DirectMessage, request, response, inbound_direct_message, delivered,
}
use decent_share.Network.EventLoop.Env.{
  Env, message_sent, message_acknowledged, event_sent, replied,
}
use decent_share.Network.EventLoop.State.{World}
use decent_share.Network.EventLoop.Swarm.{
  attempt, attempt_or_panic, send_event, send_message, put_pending, take_pending,
}
use decent_share.Network.EventLoop.Commands.{handle_direct_message}
use decent_share.Network.EventLoop.Behaviours.Messaging.{
  expect_pending, handle_direct_messaging_message,
}
use decent_share.Network.EventLoop.Trades.{IsCooperative}

module _ (alice bob : Env) (fair_b : IsCooperative bob) (text : String) (c : Sender)
    (a b : World) where
  abbrev pub message : DirectMessage
  message = record { message = text }

  -- Alice sends Bob a direct message, Bob gets it, and Alice gets his acknowledgement. If they are
  -- different peers and every act of Bob's succeeds, then Bob's user is told the text and that it came
  -- from Alice, Bob acknowledges it, and Alice's sender is told of the delivery and waits no longer.
  pub direct_message_lem :
      (k : Channel)
      → bob.local_peer_id ≢ alice.local_peer_id
      → let id = alice.send_message a.trace bob.local_peer_id message in
        let sent = (handle_direct_message alice bob.local_peer_id text c a).1 in
        let got =
          (handle_direct_messaging_message bob (request message k) alice.local_peer_id b).1 in
        let told =
          (handle_direct_messaging_message alice (response tt id) bob.local_peer_id sent).1 in
        (sent.trace ≡ message_sent bob.local_peer_id message id ∷ a.trace)
        × (got.trace
            ≡ message_acknowledged k
              ∷ event_sent (inbound_direct_message alice.local_peer_id text)
              ∷ b.trace)
        × (told.trace ≡ replied c (delivered (ok tt)) ∷ sent.trace)
        × (Dict.get told.loop.pending_request_message id ≡ none)
  unfolding handle_direct_message handle_direct_messaging_message send_message put_pending
      take_pending expect_pending send_event attempt_or_panic attempt expect ◌>>=◌
  direct_message_lem k distinct =
      rw
        (
          ==-ne bob.local_peer_id alice.local_peer_id distinct,
          Dict.get-insert_self a.loop.pending_request_message
              (alice.send_message a.trace bob.local_peer_id message) c,
        )
        (simp fair_b (
          refl,
          refl,
          refl,
          Dict.get-remove_self _ (alice.send_message a.trace bob.local_peer_id message),
        ))
