-- ===== src/Network/EventLoop/Registration.antt =====
-- The registration of the peer's own username: `handle_put_record` and
-- `handle_kademlia_routing_updated` of behaviour_handlers.rs.
pub mod Bounds
use decent_share.Base.{◌≡◌, refl, ◌∷◌, some, err, nat_eq}
use decent_share.Base.Dict
use decent_share.Base.Exec.{returned, gets, expect, ◌>>=◌}
use decent_share.Network.Message.{QueryId, Sender, PutRecordError, registered, registration_request}
use decent_share.Network.EventLoop.Env.{Env, replied, event_sent}
use decent_share.Network.EventLoop.State.{World}
use decent_share.Network.EventLoop.Swarm.{
  take_pending, modify_loop, reply, attempt_or_panic, attempt, send_event,
}
use decent_share.Network.EventLoop.Behaviours.Kademlia.{
  finish_registration, handle_put_record, request_registration, handle_kademlia_routing_updated,
}
use decent_share.Network.EventLoop.Trades.{IsCooperative}

-- Where every act succeeds: if a registration that a sender waits for fails, the sender is told; the
-- next update of the routing table asks for the registration of the peer's own username again; and the
-- update after that does nothing, unless the registration fails anew.
pub failed_registration_retried :
    (env : Env) (cooperative : IsCooperative env) (query_id : QueryId) (error : PutRecordError)
    (c : Sender) (w : World)
    → Dict.get w.loop.pending_register_username query_id ≡ some c
    → let failed = (handle_put_record env (err error) query_id w).1 in
      let asked = (handle_kademlia_routing_updated env failed).1 in
      (failed.trace ≡ replied c (registered (err error)) ∷ w.trace)
      × (asked.trace ≡ event_sent (registration_request w.loop.username) ∷ failed.trace)
      × (handle_kademlia_routing_updated env asked ≡ (returned tt, asked))
unfolding handle_put_record handle_kademlia_routing_updated take_pending finish_registration
    request_registration modify_loop reply attempt_or_panic attempt send_event expect gets ◌>>=◌
failed_registration_retried env cooperative query_id error c w e =
    simp (e, cooperative) (refl, refl, refl)
