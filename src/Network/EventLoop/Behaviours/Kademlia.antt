-- ===== src/Network/EventLoop/Behaviours/Kademlia.antt =====
-- The distributed hash table: usernames found, usernames registered, the routing table changed.
use decent_share.Base.{ℕ, String, Bool, true, false, Option, none, some, Result, ok, err, is_ok}
use decent_share.Base.Exec.{pure, gets, ◌>>=◌, ◌>>◌}
use decent_share.Network.Message.{
  QueryId, Sender, Bytes, get_record_error, utf8_error, Error, PutRecordError, registration_request,
  registered, peer_found, username_found, Reply,
}
use decent_share.Network.EventLoop.Env.{Env}
use decent_share.Network.EventLoop.State.{registering, peer_ids, usernames}
use decent_share.Network.EventLoop.Swarm.{
  Handler, modify_loop, take_pending, reply, reply_to, reply_or, send_event,
}

-- `kad::GetRecordResult`: the value of a found record, the end of the search, or an error.
pub data GetRecordOk : Type 0 where
  found_record : Bytes → GetRecordOk
  finished : GetRecordOk

module _ (env : Env) where
  abbrev pub username_result : Option String → Result String Error
  username_result none = err utf8_error
  username_result (some username) = ok username

  unfoldable pub answer_get_record : QueryId → Reply → Reply → Handler (Unit {0})
  answer_get_record query_id peer_reply username_reply = do
    peer_id_sender ← take_pending peer_ids query_id
    reply_or env peer_id_sender peer_reply "Peer ID receiver was dropped" (do
      username_sender ← take_pending usernames query_id
      reply_to env username_sender username_reply "Username receiver was dropped")

  unfoldable pub handle_get_record : Result GetRecordOk ℕ → QueryId → Handler (Unit {0})
  unfolding answer_get_record
  handle_get_record (ok (found_record value)) query_id =
      answer_get_record query_id (peer_found (env.peer_from_bytes value))
        (username_found (username_result (env.from_utf8 value)))
  handle_get_record (ok finished) query_id = pure tt
  handle_get_record (err error) query_id =
      answer_get_record query_id (peer_found none) (username_found (err (get_record_error error)))

  unfoldable pub finish_registration :
      Option Sender → Result (Unit {0}) PutRecordError → Handler (Unit {0})
  finish_registration none status = pure tt
  finish_registration (some status_sender) status = do
    modify_loop (λ s. record s { has_registered_username = is_ok status })
    reply env status_sender (registered status) "Status receiver was dropped"

  unfoldable pub handle_put_record : Result (Unit {0}) PutRecordError → QueryId → Handler (Unit {0})
  unfolding finish_registration
  handle_put_record status query_id = do
    status_sender ← take_pending registering query_id
    finish_registration status_sender status

  unfoldable pub request_registration : Bool → String → Handler (Unit {0})
  request_registration true username = pure tt
  request_registration false username = do
    send_event env (registration_request username)
    modify_loop (λ s. record s { has_registered_username = true })

  unfoldable pub handle_kademlia_routing_updated : Handler (Unit {0})
  unfolding request_registration
  handle_kademlia_routing_updated = do
    has_registered ← gets (λ w. w.loop.has_registered_username)
    username ← gets (λ w. w.loop.username)
    request_registration has_registered username
