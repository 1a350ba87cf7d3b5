-- ===== src/Network/EventLoop/Behaviours/Trading.antt =====
-- Trade offers and the responses to them.
use decent_share.Base.{ℕ, Option, none, some, ok, err, is_some, nat_eq, pair_eq}
use decent_share.Base.Dict
use decent_share.Base.Exec.{pure, ◌>>=◌, ◌>>◌}
use decent_share.Network.Message.{
  PeerId, RequestId, Channel, Bytes, FilePath, TradeOffer, TradeResponse, TradeResponseResponse,
  Message, request, response, offer_eq, outbound_failure, inbound_trade_offer,
  inbound_trade_response, delivered, bytes_received,
}
use decent_share.Network.EventLoop.Env.{
  Env, offer_acknowledged, response_answered, directories_created, file_written,
}
use decent_share.Network.EventLoop.State.{trade_offers, trade_responses}
use decent_share.Network.EventLoop.Swarm.{
  Handler, modify_loop, take_pending, take_outgoing, attempt_or_panic, reply_to, send_event,
}

module _ (env : Env) where
  unfoldable pub handle_trade_offering_message :
      Message TradeOffer (Unit {0}) → PeerId → Handler (Unit {0})
  handle_trade_offering_message (request offer channel) peer_id = do
    attempt_or_panic env (offer_acknowledged channel) "Connection to peer was dropped"
    modify_loop (λ s. record s {
      inbound_trade_offers = Dict.insert s.inbound_trade_offers (peer_id, offer) tt;
    })
    send_event env (inbound_trade_offer offer.offered_file_name peer_id offer.requested_file_name)
  handle_trade_offering_message (response _ request_id) peer_id = do
    status_sender ← take_pending trade_offers request_id
    reply_to env status_sender (delivered (ok tt)) "Status sender was dropped"

  unfoldable pub handle_trade_offering_outbound_failure : ℕ → RequestId → Handler (Unit {0})
  handle_trade_offering_outbound_failure error request_id = do
    status_sender ← take_pending trade_offers request_id
    reply_to env status_sender (delivered (err (outbound_failure error)))
        "Status receiver was dropped"

  unfoldable pub create_parents : Option FilePath → Handler (Unit {0})
  create_parents none = pure tt
  create_parents (some parent_directory) =
      attempt_or_panic env (directories_created parent_directory)
        "Failed to create parent directories"

  -- The part of `handle_trade_response_message` under `if let Some(requested_file_bytes)`: the value
  -- is that of `response` after it.
  unfoldable pub exchange : Option Bytes → Bytes → FilePath → Handler (Option Bytes)
  unfolding create_parents
  exchange none offered_file_bytes requested_file_path = pure none
  exchange (some requested_file_bytes) offered_file_bytes requested_file_path = do
    create_parents (env.parent requested_file_path)
    attempt_or_panic env (file_written requested_file_path requested_file_bytes)
        "Failed to write to file system"
    pure (some offered_file_bytes)

  -- The part after the `let … else { return }`.
  unfoldable pub complete_trade :
      Option (Bytes × FilePath) → TradeResponse → Channel → PeerId → Handler (Unit {0})
  unfolding exchange
  complete_trade none r channel peer_id = pure tt
  complete_trade (some (offered_file_bytes, requested_file_path)) r channel peer_id = do
    send_event env (
        inbound_trade_response peer_id r.offered_file_name r.requested_file_name
          (is_some r.requested_file_bytes))
    answer ← exchange r.requested_file_bytes offered_file_bytes requested_file_path
    attempt_or_panic env
        (response_answered channel (record {
          offered_file_name = r.offered_file_name;
          requested_file_name = r.requested_file_name;
          offered_file_bytes = answer;
        }))
        "Connection to peer was dropped"

  unfoldable pub handle_trade_response_message :
      Message TradeResponse TradeResponseResponse → PeerId → Handler (Unit {0})
  unfolding complete_trade
  handle_trade_response_message (request r channel) peer_id = do
    let offer : TradeOffer = record {
      offered_file_name = r.offered_file_name;
      requested_file_name = r.requested_file_name;
    }
    entry ← take_outgoing (peer_id, offer)
    complete_trade entry r channel peer_id
  handle_trade_response_message (response r request_id) peer_id = do
    offered_bytes_sender ← take_pending trade_responses request_id
    reply_to env offered_bytes_sender (bytes_received (ok r.offered_file_bytes))
        "Offered bytes receiver was dropped"

  unfoldable pub handle_trade_response_outbound_failure : RequestId → ℕ → Handler (Unit {0})
  handle_trade_response_outbound_failure request_id error = do
    offered_bytes_sender ← take_pending trade_responses request_id
    reply_to env offered_bytes_sender (bytes_received (err (outbound_failure error)))
        "Offered bytes receiver was dropped"
