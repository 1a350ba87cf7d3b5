-- ===== src/Network/EventLoop/Invariants/Steps.antt =====
-- Invariants over `handle_event`, one round of the event loop, and its runs.
use decent_share.Base.{List, [], ◌∷◌, some, nat_eq}
use decent_share.Base.Exec.Keeps.{Keeps, Keeps-if, Keeps-then}
use decent_share.Network.Message.{request, response}
use decent_share.Network.EventLoop.Env.{Env, Act}
use decent_share.Network.EventLoop.State.{World}
use decent_share.Network.EventLoop.Behaviours.Messaging.{
  handle_direct_messaging_message, handle_direct_messaging_outbound_failure,
  handle_gossipsub_message,
}
use decent_share.Network.EventLoop.Behaviours.Trading.{
  handle_trade_offering_message, handle_trade_offering_outbound_failure,
  handle_trade_response_message, handle_trade_response_outbound_failure,
}
use decent_share.Network.EventLoop.Behaviours.Discovery.{
  fewer_than_two, handle_rendezvous_discovered, handle_connected_to_rendezvous_server,
}
use decent_share.Network.EventLoop.Run
use decent_share.Network.EventLoop.Run.{SwarmEvent, handle_event, handle_tick, step, run, Input}
use decent_share.Network.EventLoop.Invariants.{Frame, cookie-Keeps, frame_rules}
use decent_share.Network.EventLoop.Invariants.Handlers.{
  Own, handle_command-Keeps, handle_get_record-Keeps, expect_pending-Keeps, discover_all-Keeps,
  discover-Keeps, identify-Keeps, mdns_discovered-Keeps, mdns_expired-Keeps,
}

ruleset handler_rules = (frame_rules, expect_pending-Keeps, discover-Keeps)

-- What each of the inputs has to show.
abbrev pub Each : (Input → Type 0) → List Input → Type 0
Each Q [] = Unit
Each Q (i ∷ is) = Q i × Each Q is

module _ {P : World → Type 0} {Free : Act → Type 0} (frame : Frame P Free) (env : Env) where
  handle_event-Keeps : (e : SwarmEvent) → Own env P (Run.event e) → Keeps P (handle_event env e)
  unfolding handle_event
  handle_event-Keeps (Run.get_record_progressed id result) own =
      handle_get_record-Keeps frame env result id
  handle_event-Keeps (Run.put_record_progressed id result) own = own
  handle_event-Keeps Run.routing_updated own = own
  handle_event-Keeps (Run.direct_messaging_message peer (request m channel)) own =
      unfold handle_direct_messaging_message in search (handler_rules, frame.plain)
  handle_event-Keeps (Run.direct_messaging_message peer (response m id)) own =
      unfold handle_direct_messaging_message in search (handler_rules, frame.plain)
  handle_event-Keeps (Run.direct_messaging_outbound_failure id e) own =
      unfold handle_direct_messaging_outbound_failure in search (handler_rules, frame.plain)
  handle_event-Keeps (Run.trade_offering_message peer (request o channel)) own = own
  handle_event-Keeps (Run.trade_offering_message peer (response o id)) own =
      unfold handle_trade_offering_message in search (handler_rules, frame.plain)
  handle_event-Keeps (Run.trade_offering_outbound_failure id e) own =
      unfold handle_trade_offering_outbound_failure in search (handler_rules, frame.plain)
  handle_event-Keeps (Run.trade_response_message peer (request r channel)) own = own
  handle_event-Keeps (Run.trade_response_message peer (response r id)) own =
      unfold handle_trade_response_message in search (handler_rules, frame.plain)
  handle_event-Keeps (Run.trade_response_outbound_failure id e) own =
      unfold handle_trade_response_outbound_failure in search (handler_rules, frame.plain)
  handle_event-Keeps (Run.mdns_discovered l) own = mdns_discovered-Keeps frame env l
  handle_event-Keeps (Run.mdns_expired l) own = mdns_expired-Keeps frame env l
  handle_event-Keeps (Run.gossipsub_message peer m) own =
      unfold handle_gossipsub_message in search (handler_rules, frame.plain)
  handle_event-Keeps (Run.connection_established peer) own =
      unfold handle_connected_to_rendezvous_server in search handler_rules
  handle_event-Keeps (Run.rendezvous_discovered rs c) own =
      unfold handle_rendezvous_discovered in
      Keeps-then _ _ (cookie-Keeps frame (some c)) (
        Keeps-if (fewer_than_two env rs) _ _ (search frame_rules) (discover_all-Keeps frame env rs))
  handle_event-Keeps (Run.identify_received a) own = identify-Keeps frame env a
  handle_event-Keeps Run.other_event own = search handler_rules

  handle_tick-Keeps : Keeps P (handle_tick env)
  unfolding handle_tick
  handle_tick-Keeps = search handler_rules

  pub step-Keeps : (i : Input) → Own env P i → Keeps P (step env i)
  unfolding step
  step-Keeps (Run.event e) own = handle_event-Keeps e own
  step-Keeps (Run.command c) own = handle_command-Keeps frame env c own
  step-Keeps Run.tick own = handle_tick-Keeps
  step-Keeps Run.commands_closed own = search frame_rules

  pub run-Keeps-Each : (inputs : List Input) → Each (Own env P) inputs → Keeps P (run env inputs)
  unfolding run
  run-Keeps-Each [] own = search frame_rules
  run-Keeps-Each (Run.commands_closed ∷ is) own = search frame_rules
  run-Keeps-Each (Run.event e ∷ is) (o, own) =
      Keeps-then _ _ (step-Keeps (Run.event e) o) (run-Keeps-Each is own)
  run-Keeps-Each (Run.command c ∷ is) (o, own) =
      Keeps-then _ _ (step-Keeps (Run.command c) o) (run-Keeps-Each is own)
  run-Keeps-Each (Run.tick ∷ is) (o, own) =
      Keeps-then _ _ (step-Keeps Run.tick o) (run-Keeps-Each is own)

  pub run-Keeps : ((i : Input) → Own env P i) → (inputs : List Input) → Keeps P (run env inputs)
  run-Keeps own inputs = run-Keeps-Each inputs (every inputs)
    where
      every : (is : List Input) → Each (Own env P) is
      every [] = tt
      every (i ∷ is) = (own i, every is)
