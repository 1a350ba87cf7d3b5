-- ===== src/Tests/Conversations.antt =====
-- The theorem on direct messages, at a message from peer 1 (Alice) to peer 2 (Bob).
use decent_share.Base.{◌≡◌, refl, [], ◌∷◌, none, ok, nat_eq, arith}
use decent_share.Base.Dict
use decent_share.Network.Message.{
  DirectMessage, request, response, inbound_direct_message, delivered,
}
use decent_share.Network.EventLoop.Env.{
  Env, message_sent, message_acknowledged, event_sent, replied,
}
use decent_share.Network.EventLoop.State.{World, start, new}
use decent_share.Network.EventLoop.Commands.{handle_direct_message}
use decent_share.Network.EventLoop.Behaviours.Messaging.{handle_direct_messaging_message}
use decent_share.Network.EventLoop.Conversations.{direct_message_lem}
use decent_share.Tests.Setting.{peer}

abbrev alice : Env
alice = peer 1

abbrev bob : Env
bob = peer 2

abbrev fresh_start : World
fresh_start = start (new "alice" none)

abbrev hello : DirectMessage
hello = record { message = "hello" }

direct_message_lem_example :
    let sent = (handle_direct_message alice 2 "hello" 12 fresh_start).1 in
    let got = (handle_direct_messaging_message bob (request hello 20) 1 fresh_start).1 in
    let told = (handle_direct_messaging_message alice (response tt 1) 2 sent).1 in
    (sent.trace ≡ message_sent 2 hello 1 ∷ [])
    × (got.trace ≡ message_acknowledged 20 ∷ event_sent (inbound_direct_message 1 "hello") ∷ [])
    × (told.trace ≡ replied 12 (delivered (ok tt)) ∷ sent.trace)
    × (Dict.get told.loop.pending_request_message 1 ≡ none)
direct_message_lem_example =
    direct_message_lem alice bob (λ t a. refl) "hello" 12 fresh_start fresh_start 20
      (λ e. omega arith)
