-- ===== src/Network/EventLoop/Progress/Steps.antt =====
-- The panics of each handler, of `handle_event` and of one round of `run`.
use decent_share.Base.Dict
use decent_share.Base.{
  List, [], ◌∷◌, ◌∙◌, Bool-cases, ◌≡◌, inl, inr, refl, Option, none, some, ok, err, ◌==◌, nat_eq,
  if◌then◌else◌, is_some, ◌&&◌,
}
use decent_share.Base.Exec.{Outcome, ◌>>=◌, pure, returned}
use decent_share.Network.Message.{PeerId, Sender, RequestId, request, response, Cookie}
use decent_share.Network.EventLoop.Env.{Env}
use decent_share.Network.EventLoop.State.{World, messages}
use decent_share.Network.EventLoop.Swarm.{act, Handler, take_pending}
use decent_share.Network.EventLoop.Behaviours.Kademlia.{
  found_record, finished, handle_get_record, handle_put_record, handle_kademlia_routing_updated,
}
use decent_share.Network.EventLoop.Behaviours.Messaging.{
  expect_pending, handle_direct_messaging_message, handle_direct_messaging_outbound_failure,
  handle_gossipsub_message,
}
use decent_share.Network.EventLoop.Behaviours.Trading.{
  handle_trade_offering_message, handle_trade_offering_outbound_failure,
  handle_trade_response_message, handle_trade_response_outbound_failure,
}
use decent_share.Network.EventLoop.Behaviours.Discovery.{
  handle_rendezvous_discovered, discover, handle_connected_to_rendezvous_server,
  handle_identify_received,
}
use decent_share.Network.EventLoop.Run
use decent_share.Network.EventLoop.Run.{SwarmEvent, handle_event, handle_tick, step, run, Input}
use decent_share.Network.EventLoop.Trades.{IsCooperative}
use decent_share.Network.EventLoop.Progress.{
  HasRoom, IsExpected, AllExpected, bind_returns, Returns, returns_rules,
}
use decent_share.Network.EventLoop.Progress.Parts.{
  handler_rules, handle_command-Returns, discover_all-Returns, mdns_discovered-Returns,
  mdns_expired-Returns,
}

module _ (env : Env) (cooperative : IsCooperative env) (room : HasRoom env) where
  returned_tt : (r : Outcome (Unit {0})) → (a : Unit {0}) × (r ≡ returned a) → r ≡ returned tt
  returned_tt r (tt, e) = e

  known_discover :
      (k : Option Cookie) (w : World) (p : PeerId)
      → w.loop.rendezvous_peer_id ≡ some p
      → (discover env k w).0 ≡ returned tt
  unfolding discover ◌>>=◌ act
  known_discover k w p e = rw e refl

  -- The guard of the event has a rendezvous server, so that the `unwrap` behind it succeeds.
  connected_returns :
      (peer : PeerId) (o : Option PeerId) (w : World)
      → w.loop.rendezvous_peer_id ≡ o
      → ((if Run.is_rendezvous peer o then handle_connected_to_rendezvous_server env else pure tt)
          w).0
        ≡ returned tt
  unfolding handle_connected_to_rendezvous_server pure
  connected_returns peer none w e = refl
  connected_returns peer (some p) w e = elim (Bool-cases (peer == p)) [
    | inl q ↦ rw q (known_discover none w p e)
    | inr q ↦ rw q refl
  ]

  tick_returns :
      (o : Option PeerId) (k : Option Cookie) (w : World)
      → w.loop.rendezvous_peer_id ≡ o
      → ((if is_some o && is_some k then discover env k else pure tt) w).0 ≡ returned tt
  unfolding pure
  tick_returns none k w e = refl
  tick_returns (some p) none w e = refl
  tick_returns (some p) (some k) w e = known_discover (some k) w p e

  message_awaited :
      (id : RequestId) (f : Sender → Handler (Unit {0})) (w : World) (c : Sender)
      → ((d : Sender) → Returns (f d))
      → Dict.get w.loop.pending_request_message id ≡ some c
      → ((take_pending messages id >>= λ found. expect_pending env found >>= f) w).0 ≡ returned tt
  unfolding take_pending expect_pending ◌>>=◌
  message_awaited id f w c h e = rw (e, ◌>>=◌) (returned_tt _ ((h c).at _))

  event_returns :
      (e : SwarmEvent) (w : World)
      → IsExpected (Run.event e) w
      → (handle_event env e w).0 ≡ returned tt
  unfolding handle_event
  event_returns (Run.get_record_progressed id (ok (found_record v))) w h =
      let r : Returns (handle_event env (Run.get_record_progressed id (ok (found_record v)))) =
        unfold handle_event handle_get_record in search handler_rules in
      returned_tt _ (r.at w)
  event_returns (Run.get_record_progressed id (ok finished)) w h =
      let r : Returns (handle_event env (Run.get_record_progressed id (ok finished))) =
        unfold handle_event handle_get_record in search handler_rules in
      returned_tt _ (r.at w)
  event_returns (Run.get_record_progressed id (err e)) w h =
      let r : Returns (handle_event env (Run.get_record_progressed id (err e))) =
        unfold handle_event handle_get_record in search handler_rules in
      returned_tt _ (r.at w)
  event_returns (Run.put_record_progressed id result) w h =
      let r : Returns (handle_event env (Run.put_record_progressed id result)) =
        unfold handle_event handle_put_record in search handler_rules in
      returned_tt _ (r.at w)
  event_returns Run.routing_updated w h =
      let r : Returns (handle_event env Run.routing_updated) =
        unfold handle_event handle_kademlia_routing_updated in search handler_rules in
      returned_tt _ (r.at w)
  event_returns (Run.direct_messaging_message peer (request m channel)) w h =
      let r : Returns (handle_event env (Run.direct_messaging_message peer (request m channel))) =
        unfold handle_event handle_direct_messaging_message in search handler_rules in
      returned_tt _ (r.at w)
  event_returns (Run.direct_messaging_message peer (response m id)) w (c, e) =
      unfold handle_direct_messaging_message in
      message_awaited id _ w c (λ d. search returns_rules) e
  event_returns (Run.direct_messaging_outbound_failure id n) w (c, e) =
      unfold handle_direct_messaging_outbound_failure in
      message_awaited id _ w c (λ d. search returns_rules) e
  event_returns (Run.trade_offering_message peer (request o channel)) w h =
      let r : Returns (handle_event env (Run.trade_offering_message peer (request o channel))) =
        unfold handle_event handle_trade_offering_message in search handler_rules in
      returned_tt _ (r.at w)
  event_returns (Run.trade_offering_message peer (response o id)) w h =
      let r : Returns (handle_event env (Run.trade_offering_message peer (response o id))) =
        unfold handle_event handle_trade_offering_message in search handler_rules in
      returned_tt _ (r.at w)
  event_returns (Run.trade_offering_outbound_failure id e) w h =
      let r : Returns (handle_event env (Run.trade_offering_outbound_failure id e)) =
        unfold handle_event handle_trade_offering_outbound_failure in search handler_rules in
      returned_tt _ (r.at w)
  event_returns (Run.trade_response_message peer (request r channel)) w h =
      let r : Returns (handle_event env (Run.trade_response_message peer (request r channel))) =
        unfold handle_event handle_trade_response_message in search handler_rules in
      returned_tt _ (r.at w)
  event_returns (Run.trade_response_message peer (response r id)) w h =
      let r : Returns (handle_event env (Run.trade_response_message peer (response r id))) =
        unfold handle_event handle_trade_response_message in search handler_rules in
      returned_tt _ (r.at w)
  event_returns (Run.trade_response_outbound_failure id e) w h =
      let r : Returns (handle_event env (Run.trade_response_outbound_failure id e)) =
        unfold handle_event handle_trade_response_outbound_failure in search handler_rules in
      returned_tt _ (r.at w)
  event_returns (Run.mdns_discovered l) w h =
      let r : Returns (handle_event env (Run.mdns_discovered l)) =
        unfold handle_event in mdns_discovered-Returns env cooperative room l in
      returned_tt _ (r.at w)
  event_returns (Run.mdns_expired l) w h =
      let r : Returns (handle_event env (Run.mdns_expired l)) =
        unfold handle_event in mdns_expired-Returns env cooperative room l in
      returned_tt _ (r.at w)
  event_returns (Run.gossipsub_message peer m) w h =
      let r : Returns (handle_event env (Run.gossipsub_message peer m)) =
        unfold handle_event handle_gossipsub_message in search handler_rules in
      returned_tt _ (r.at w)
  event_returns (Run.connection_established peer) w h =
      unfold ◌>>=◌ in connected_returns peer w.loop.rendezvous_peer_id w refl
  event_returns (Run.rendezvous_discovered rs c) w h =
      let r : Returns (handle_event env (Run.rendezvous_discovered rs c)) =
        unfold handle_event handle_rendezvous_discovered in
        search (handler_rules, discover_all-Returns) in
      returned_tt _ (r.at w)
  event_returns (Run.identify_received a) w h =
      let r : Returns (handle_event env (Run.identify_received a)) =
        unfold handle_event handle_identify_received in search handler_rules in
      returned_tt _ (r.at w)
  event_returns Run.other_event w h =
      let r : Returns (handle_event env Run.other_event) =
        unfold handle_event in search handler_rules in
      returned_tt _ (r.at w)

  -- No round of the event loop panics: each command, each tick and each event of the network is handled
  -- to its end.
  pub step_returns : (i : Input) (w : World) → IsExpected i w → (step env i w).0 ≡ returned tt
  unfolding step
  step_returns (Run.event e) w h = event_returns e w h
  step_returns (Run.command k) w h =
      returned_tt _ ((handle_command-Returns env cooperative room k).at w)
  step_returns Run.tick w h =
      unfold handle_tick ◌>>=◌ in tick_returns w.loop.rendezvous_peer_id w.loop.cookie w refl
  step_returns Run.commands_closed w h = unfold pure in refl

  -- While every act that may fail succeeds and the record store takes every record, the event loop never
  -- panics: it handles all inputs to their end, or until the commands are closed. The only condition is
  -- that each answer to a direct message, and each failure of one, comes while a sender waits for it.
  pub run_returns :
      (inputs : List Input) (w : World)
      → AllExpected env inputs w
      → (run env inputs w).0 ≡ returned tt
  unfolding run pure ◌>>=◌
  run_returns [] w h = refl
  run_returns (Run.commands_closed ∷ is) w h = refl
  run_returns (Run.event e ∷ is) w (h, hs) =
      bind_returns (step env (Run.event e)) (λ _. run env is) w tt (step_returns (Run.event e) w h)
      ∙ run_returns is (step env (Run.event e) w).1 hs
  run_returns (Run.command k ∷ is) w (h, hs) =
      bind_returns (step env (Run.command k)) (λ _. run env is) w tt
        (step_returns (Run.command k) w h)
      ∙ run_returns is (step env (Run.command k) w).1 hs
  run_returns (Run.tick ∷ is) w (h, hs) =
      bind_returns (step env Run.tick) (λ _. run env is) w tt (step_returns Run.tick w h)
      ∙ run_returns is (step env Run.tick w).1 hs
