-- ===== src/Network/EventLoop/Commands.antt =====
-- src/network/event_loop/command_handlers.rs and `handle_command` of command.rs.
use decent_share.Base.{String, Option, none, some, err, nat_eq, ◌==◌, if◌then◌else◌}
use decent_share.Base.{pair_eq}
use decent_share.Base.Dict
use decent_share.Base.Exec.{pure, ◌>>=◌, ◌>>◌}
use decent_share.Network.Message.{
  PeerId, RequestId, Sender, Bytes, FilePath, TradeOffer, offer_eq, self_trade, self_message,
  no_valid_trade, Command, register_username, find_peer_id, find_peer_username, make_trade_offer,
  respond_trade, send_chat_message, direct_message, delivered, bytes_received, chat_sent,
}
use decent_share.Network.EventLoop.Env.{Env}
use decent_share.Network.EventLoop.State.{
  registering, messages, peer_ids, usernames, trade_offers, trade_responses,
}
use decent_share.Network.EventLoop.Swarm.{
  Handler, modify_loop, put_pending, take_inbound, reply, put_record, get_record, send_offer,
  send_response, send_message, publish,
}

module _ (env : Env) where
  unfoldable pub handle_register_username : String → Sender → Handler (Unit {0})
  handle_register_username username status_sender = do
    let peer_id_bytes = env.peer_to_bytes env.local_peer_id
    let username_bytes = env.into_bytes (env.to_lowercase username)
    query_id ← put_record env username_bytes peer_id_bytes
    put_pending registering query_id status_sender
    _ ← put_record env peer_id_bytes username_bytes
    pure tt

  unfoldable pub handle_find_peer_id : String → Sender → Handler (Unit {0})
  handle_find_peer_id username peer_id_sender = do
    query_id ← get_record env (env.into_bytes (env.to_lowercase username))
    put_pending peer_ids query_id peer_id_sender

  unfoldable pub handle_find_peer_username : PeerId → Sender → Handler (Unit {0})
  handle_find_peer_username peer_id username_sender = do
    query_id ← get_record env (env.peer_to_bytes peer_id)
    put_pending usernames query_id username_sender

  unfoldable pub handle_make_trade_offer :
      String → Bytes → PeerId → String → FilePath → Sender → Handler (Unit {0})
  handle_make_trade_offer offered bytes peer_id requested path error_sender =
      let offer : TradeOffer = record {
        offered_file_name = offered;
        requested_file_name = requested;
      } in
      if peer_id == env.local_peer_id
      then reply env error_sender (delivered (err self_trade)) "Error receiver was dropped"
      else (do
        query_id ← send_offer env peer_id offer
        put_pending trade_offers query_id error_sender
        modify_loop (λ s. record s {
          outgoing_trade_offers =
              Dict.insert s.outgoing_trade_offers (peer_id, offer) (bytes, path);
        }))

  unfoldable pub refuse_trade : String → String → Option Sender → Handler (Unit {0})
  refuse_trade offered requested none = pure tt
  refuse_trade offered requested (some offered_bytes_sender) =
      reply env offered_bytes_sender (bytes_received (err (no_valid_trade offered requested)))
        "Offered bytes receiver was dropped"

  unfoldable pub await_response : Option Sender → RequestId → Handler (Unit {0})
  await_response none request_id = pure tt
  await_response (some offered_bytes_sender) request_id =
      put_pending trade_responses request_id offered_bytes_sender

  unfoldable pub handle_respond_trade :
      PeerId → String → String → Option Bytes → Option Sender → Handler (Unit {0})
  unfolding refuse_trade await_response
  handle_respond_trade peer_id requested offered requested_file_bytes offered_bytes_sender = do
    let offer : TradeOffer = record { offered_file_name = offered; requested_file_name = requested }
    was_open ← take_inbound (peer_id, offer)
    if was_open
        then (do
          request_id ← send_response env peer_id (record {
            requested_file_name = requested;
            offered_file_name = offered;
            requested_file_bytes = requested_file_bytes;
          })
          await_response offered_bytes_sender request_id)
        else refuse_trade offered requested offered_bytes_sender

  unfoldable pub handle_send_chat_message : String → Sender → Handler (Unit {0})
  handle_send_chat_message message status_sender = do
    status ← publish env (env.into_bytes message)
    reply env status_sender (chat_sent status) "Status receiver was dropped"

  unfoldable pub handle_direct_message : PeerId → String → Sender → Handler (Unit {0})
  handle_direct_message peer_id message error_sender =
      if peer_id == env.local_peer_id
      then reply env error_sender (delivered (err self_message)) "Error receiver was dropped"
      else (do
        request_id ← send_message env peer_id (record { message = message })
        put_pending messages request_id error_sender)

  unfoldable pub handle_command : Command → Handler (Unit {0})
  handle_command (register_username username sender) = handle_register_username username sender
  handle_command (find_peer_id username sender) = handle_find_peer_id username sender
  handle_command (find_peer_username peer_id sender) = handle_find_peer_username peer_id sender
  handle_command (make_trade_offer offered bytes peer_id requested path sender) =
      handle_make_trade_offer offered bytes peer_id requested path sender
  handle_command (respond_trade peer_id requested offered bytes sender) =
      handle_respond_trade peer_id requested offered bytes sender
  handle_command (send_chat_message message sender) = handle_send_chat_message message sender
  handle_command (direct_message peer_id message sender) =
      handle_direct_message peer_id message sender
