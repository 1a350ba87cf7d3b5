-- ===== src/Network/EventLoop/Behaviours/Messaging.antt =====
-- Direct messages and the global chat.
use decent_share.Base.{ℕ, Option, none, some, ok, err}
use decent_share.Base.Exec.{pure, panic, ◌>>=◌, ◌>>◌}
use decent_share.Network.Message.{
  PeerId, RequestId, Sender, Bytes, DirectMessage, Message, request, response, outbound_failure,
  inbound_direct_message, inbound_chat, delivered,
}
use decent_share.Network.EventLoop.Env.{Env, message_acknowledged, replied}
use decent_share.Network.EventLoop.State.{messages}
use decent_share.Network.EventLoop.Swarm.{
  Handler, take_pending, attempt, attempt_or_panic, reply, send_event,
}

module _ (env : Env) where
  unfoldable pub expect_pending : Option Sender → Handler Sender
  expect_pending none = panic "Message was not pending"
  expect_pending (some sender) = pure sender

  unfoldable pub handle_direct_messaging_message :
      Message DirectMessage (Unit {0}) → PeerId → Handler (Unit {0})
  unfolding expect_pending
  handle_direct_messaging_message (request message channel) peer_id = do
    send_event env (inbound_direct_message peer_id message.message)
    attempt_or_panic env (message_acknowledged channel) "Connection to peer was dropped"
  handle_direct_messaging_message (response _ request_id) peer_id = do
    found ← take_pending messages request_id
    sender ← expect_pending found
    _ ← attempt env (replied sender (delivered (ok tt)))
    pure tt

  unfoldable pub handle_direct_messaging_outbound_failure : RequestId → ℕ → Handler (Unit {0})
  unfolding expect_pending
  handle_direct_messaging_outbound_failure request_id error = do
    found ← take_pending messages request_id
    sender ← expect_pending found
    reply env sender (delivered (err (outbound_failure error)))
        "Direct messaging receiver was dropped"

  unfoldable pub handle_gossipsub_message : Bytes → PeerId → Handler (Unit {0})
  handle_gossipsub_message message peer_id =
      send_event env (inbound_chat peer_id (env.from_utf8_lossy message))
