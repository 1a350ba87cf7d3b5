-- ===== src/Network/EventLoop/Invariants/Handlers.antt =====
-- The handlers that make plain acts only, and the inputs whose handlers each invariant has to look at
-- for itself.
use decent_share.Base.{
  List, [], ◌∷◌, Option, none, some, Result, ℕ, ok, err, ◌==◌, nat_eq, ◌≡◌, refl,
}
use decent_share.Base.Exec.{gets, panic, pure, ◌>>=◌}
use decent_share.Base.Exec.Keeps.{Keeps, Keeps-if, Keeps-then, Keeps-panic, Keeps-pure}
use decent_share.Network.Message.{
  PeerId, Sender, Reply, QueryId, Multiaddr, Command, register_username, find_peer_id,
  find_peer_username, make_trade_offer, respond_trade, send_chat_message, direct_message, request,
  Cookie,
}
use decent_share.Network.EventLoop.Env.{Env, Act, replied, discovered, external_address_added}
use decent_share.Network.EventLoop.State.{World}
use decent_share.Network.EventLoop.Commands.{
  handle_register_username, handle_find_peer_id, handle_find_peer_username, handle_make_trade_offer,
  handle_respond_trade, handle_send_chat_message, handle_direct_message, handle_command,
}
use decent_share.Network.EventLoop.Behaviours.Kademlia.{
  GetRecordOk, found_record, finished, answer_get_record, handle_get_record, handle_put_record,
  handle_kademlia_routing_updated,
}
use decent_share.Network.EventLoop.Behaviours.Messaging.{expect_pending}
use decent_share.Network.EventLoop.Behaviours.Trading.{
  handle_trade_offering_message, handle_trade_response_message,
}
use decent_share.Network.EventLoop.Behaviours.Discovery.{
  Registration, handle_mdns_discovered, handle_mdns_expired, dial_all, discover_all,
  unwrap_rendezvous, discover, register_at, handle_identify_received,
}
use decent_share.Network.EventLoop.Run
use decent_share.Network.EventLoop.Run.{Input}
use decent_share.Network.EventLoop.Swarm.{Handler, act, attempt}
use decent_share.Network.EventLoop.Invariants.{Frame, act-Keeps, frame_rules}

module _ (env : Env) (P : World → Type 0) where
  -- What an invariant has to show for an input beyond its frame: that the handler keeps it, if it is
  -- one of the seven that make offers, answer them, send direct messages, or register.
  abbrev pub Own : Input → Type 0
  Own (Run.command (make_trade_offer o b p r f c)) =
      Keeps P (handle_make_trade_offer env o b p r f c)
  Own (Run.command (respond_trade p r o b c)) = Keeps P (handle_respond_trade env p r o b c)
  Own (Run.command (direct_message p m c)) = Keeps P (handle_direct_message env p m c)
  Own (Run.event (Run.put_record_progressed id result)) = Keeps P (handle_put_record env result id)
  Own (Run.event Run.routing_updated) = Keeps P (handle_kademlia_routing_updated env)
  Own (Run.event (Run.trade_offering_message p (request o k))) =
      Keeps P (handle_trade_offering_message env (request o k) p)
  Own (Run.event (Run.trade_response_message p (request r k))) =
      Keeps P (handle_trade_response_message env (request r k) p)
  Own _ = Unit

module _ {P : World → Type 0} {Free : Act → Type 0} (frame : Frame P Free) (env : Env) where
  pub handle_command-Keeps :
      (c : Command) → Own env P (Run.command c) → Keeps P (handle_command env c)
  unfolding handle_command
  handle_command-Keeps (register_username u c) own =
      unfold handle_register_username in search frame_rules
  handle_command-Keeps (find_peer_id u c) own = unfold handle_find_peer_id in search frame_rules
  handle_command-Keeps (find_peer_username p c) own =
      unfold handle_find_peer_username in search frame_rules
  handle_command-Keeps (make_trade_offer o b p r f c) own = own
  handle_command-Keeps (respond_trade p r o b c) own = own
  handle_command-Keeps (send_chat_message m c) own =
      unfold handle_send_chat_message in search (frame_rules, frame.plain)
  handle_command-Keeps (direct_message p m c) own = own

  answer_get_record-Keeps :
      (id : QueryId) (p u : Reply)
      → ((c : Sender) → Free (replied c p))
      → ((c : Sender) → Free (replied c u))
      → Keeps P (answer_get_record env id p u)
  unfolding answer_get_record
  answer_get_record-Keeps id p u hp hu = search frame_rules

  pub handle_get_record-Keeps :
      (result : Result GetRecordOk ℕ) (id : QueryId) → Keeps P (handle_get_record env result id)
  unfolding handle_get_record
  handle_get_record-Keeps (ok (found_record v)) id =
      answer_get_record-Keeps id _ _ (λ c. frame.plain _ tt) (λ c. frame.plain _ tt)
  handle_get_record-Keeps (ok finished) id = search frame_rules
  handle_get_record-Keeps (err e) id =
      answer_get_record-Keeps id _ _ (λ c. frame.plain _ tt) (λ c. frame.plain _ tt)

  pub expect_pending-Keeps : (c : Option Sender) → Keeps P (expect_pending env c)
  unfolding expect_pending
  expect_pending-Keeps none = search frame_rules
  expect_pending-Keeps (some c) = search frame_rules

  dial_all-Keeps :
      (peer : PeerId) (addresses : List Multiaddr) → Keeps P (dial_all env peer addresses)
  unfolding dial_all
  dial_all-Keeps peer [] = search frame_rules
  dial_all-Keeps peer (a ∷ addresses) =
      Keeps-then _ _ (search (frame_rules, frame.plain))
        (Keeps-then _ _ (search (frame_rules, frame.plain)) (dial_all-Keeps peer addresses))

  pub discover_all-Keeps : (rs : List Registration) → Keeps P (discover_all env rs)
  unfolding discover_all
  discover_all-Keeps [] = search frame_rules
  discover_all-Keeps (r ∷ rs) = Keeps-if (r.peer_id == env.local_peer_id) _ _ (search frame_rules) (
      Keeps-then _ _ (dial_all-Keeps r.peer_id r.addresses)
        (Keeps-then _ _ (search (frame_rules, frame.plain)) (discover_all-Keeps rs)))

  -- What is done with the rendezvous server's peer id, as it stands at that point.
  server-Keeps :
      (m : Option PeerId → Handler (Unit {0}))
      → Keeps P (m none)
      → ((p : PeerId) (w : World) → w.loop.rendezvous_peer_id ≡ some p → P w → P (m (some p) w).1)
      → Keeps P (gets (λ w. w.loop.rendezvous_peer_id) >>= m)
  unfolding gets ◌>>=◌
  server-Keeps m unknown known = record { at = λ w h. go w h (w.loop.rendezvous_peer_id) refl }
    where
      go : (w : World) → P w → (o : Option PeerId) → w.loop.rendezvous_peer_id ≡ o → P (m o w).1
      go w h none e = unknown.at w h
      go w h (some p) e = known p w e h

  pub discover-Keeps : (k : Option Cookie) → Keeps P (discover env k)
  unfolding discover unwrap_rendezvous act panic pure ◌>>=◌
  discover-Keeps k =
      server-Keeps (λ o. unwrap_rendezvous env o >>= λ p. act env (discovered k p))
        (Keeps-panic "unwrap") (λ p w e h. frame.discovers k p w e h)

  pub identify-Keeps : (a : Multiaddr) → Keeps P (handle_identify_received env a)
  unfolding handle_identify_received register_at attempt pure ◌>>=◌
  identify-Keeps a =
      Keeps-then (act env (external_address_added a))
        (gets (λ w. w.loop.rendezvous_peer_id) >>= register_at env)
        (act-Keeps frame env (external_address_added a) (frame.plain _ tt))
        (server-Keeps (register_at env) (Keeps-pure tt) (λ p w e h. frame.registers p w e h))

  pub mdns_discovered-Keeps :
      (l : List (PeerId × Multiaddr)) → Keeps P (handle_mdns_discovered env l)
  unfolding handle_mdns_discovered
  mdns_discovered-Keeps [] = search frame_rules
  mdns_discovered-Keeps ((p, a) ∷ l) =
      Keeps-then _ _ (search (frame_rules, frame.plain))
        (Keeps-then _ _ (search (frame_rules, frame.plain)) (mdns_discovered-Keeps l))

  pub mdns_expired-Keeps : (l : List (PeerId × Multiaddr)) → Keeps P (handle_mdns_expired env l)
  unfolding handle_mdns_expired
  mdns_expired-Keeps [] = search frame_rules
  mdns_expired-Keeps ((p, a) ∷ l) =
      Keeps-then _ _ (search (frame_rules, frame.plain)) (mdns_expired-Keeps l)
