-- ===== src/Network/EventLoop/Replies/Steps.antt =====
-- The senders of the tables, under `handle_event` and one round of `run`.
use decent_share.Base.{some, ok, err, nat_eq}
use decent_share.Base.Exec.Keeps.{keeps_rules, Keeps-then}
use decent_share.Network.Message.{Sender, request, response}
use decent_share.Network.EventLoop.Env.{Env}
use decent_share.Network.EventLoop.State.{registering, messages, trade_offers, trade_responses}
use decent_share.Network.EventLoop.Behaviours.Kademlia.{
  found_record, finished, handle_get_record, handle_put_record, handle_kademlia_routing_updated,
}
use decent_share.Network.EventLoop.Behaviours.Messaging.{
  handle_direct_messaging_message, handle_direct_messaging_outbound_failure,
  handle_gossipsub_message,
}
use decent_share.Network.EventLoop.Behaviours.Trading.{
  handle_trade_offering_message, handle_trade_offering_outbound_failure,
  handle_trade_response_message, handle_trade_response_outbound_failure,
}
use decent_share.Network.EventLoop.Behaviours.Discovery.{
  handle_rendezvous_discovered, handle_connected_to_rendezvous_server, handle_identify_received,
}
use decent_share.Network.EventLoop.Run
use decent_share.Network.EventLoop.Run.{SwarmEvent, handle_event, handle_tick, step, run, Input}
use decent_share.Network.EventLoop.Replies.{IsFresh}
use decent_share.Network.EventLoop.Replies.Handlers.{
  Holding, take_pending-Holding, reply_to-Holds, inbound_trade_offers-Holding, cookie-Holding,
  reply-Holds,
}
use decent_share.Network.EventLoop.Replies.Asked.{handle_command-Holding}
use decent_share.Network.EventLoop.Replies.Parts.{
  holding_rules, answer_get_record-Holding, finish_registration-Holds, expected-Holds,
  settled-Holds, complete_trade-Holding, discover_all-Holding, discover-Holding,
  register_at-Holding, request_registration-Holding, mdns_discovered-Holding, mdns_expired-Holding,
}

module _ (Z : Type 0) (env : Env) (c : Sender) where
  handle_event-Holding : (e : SwarmEvent) → Holding Z env c (handle_event env e)
  unfolding handle_event
  handle_event-Holding (Run.get_record_progressed id (ok (found_record v))) =
      unfold handle_get_record in answer_get_record-Holding Z env c id _ _
  handle_event-Holding (Run.get_record_progressed id (ok finished)) =
      unfold handle_get_record in search holding_rules
  handle_event-Holding (Run.get_record_progressed id (err e)) =
      unfold handle_get_record in answer_get_record-Holding Z env c id _ _
  handle_event-Holding (Run.put_record_progressed id result) =
      unfold handle_put_record in
      take_pending-Holding Z env c registering id _ (finish_registration-Holds Z env c result)
  handle_event-Holding Run.routing_updated =
      unfold handle_kademlia_routing_updated in search (holding_rules, request_registration-Holding)
  handle_event-Holding (Run.direct_messaging_message peer (request m channel)) =
      unfold handle_direct_messaging_message in search holding_rules
  handle_event-Holding (Run.direct_messaging_message peer (response m id)) =
      unfold handle_direct_messaging_message in
      take_pending-Holding Z env c messages id _
        (expected-Holds Z env c _ (settled-Holds Z env c _))
  handle_event-Holding (Run.direct_messaging_outbound_failure id e) =
      unfold handle_direct_messaging_outbound_failure in
      take_pending-Holding Z env c messages id _
        (expected-Holds Z env c _ (λ d. reply-Holds Z env c d _ _))
  handle_event-Holding (Run.trade_offering_message peer (request o channel)) =
      unfold handle_trade_offering_message in
      Keeps-then _ _ (search holding_rules)
        (Keeps-then _ _ (inbound_trade_offers-Holding Z env c _) (search holding_rules))
  handle_event-Holding (Run.trade_offering_message peer (response o id)) =
      unfold handle_trade_offering_message in
      take_pending-Holding Z env c trade_offers id _ (reply_to-Holds Z env c _ _)
  handle_event-Holding (Run.trade_offering_outbound_failure id e) =
      unfold handle_trade_offering_outbound_failure in
      take_pending-Holding Z env c trade_offers id _ (reply_to-Holds Z env c _ _)
  handle_event-Holding (Run.trade_response_message peer (request r channel)) =
      unfold handle_trade_response_message in search (holding_rules, complete_trade-Holding)
  handle_event-Holding (Run.trade_response_message peer (response r id)) =
      unfold handle_trade_response_message in
      take_pending-Holding Z env c trade_responses id _ (reply_to-Holds Z env c _ _)
  handle_event-Holding (Run.trade_response_outbound_failure id e) =
      unfold handle_trade_response_outbound_failure in
      take_pending-Holding Z env c trade_responses id _ (reply_to-Holds Z env c _ _)
  handle_event-Holding (Run.mdns_discovered l) = mdns_discovered-Holding Z env c l
  handle_event-Holding (Run.mdns_expired l) = mdns_expired-Holding Z env c l
  handle_event-Holding (Run.gossipsub_message peer m) =
      unfold handle_gossipsub_message in search holding_rules
  handle_event-Holding (Run.connection_established peer) =
      unfold handle_connected_to_rendezvous_server in search (holding_rules, discover-Holding)
  handle_event-Holding (Run.rendezvous_discovered rs k) =
      unfold handle_rendezvous_discovered in
      Keeps-then _ _ (cookie-Holding Z env c (λ s. some k))
        (search (holding_rules, discover_all-Holding))
  handle_event-Holding (Run.identify_received a) =
      unfold handle_identify_received in search (holding_rules, register_at-Holding)
  handle_event-Holding Run.other_event = search holding_rules

  handle_tick-Holding : Holding Z env c (handle_tick env)
  unfolding handle_tick
  handle_tick-Holding = search (holding_rules, discover-Holding)

  pub step-Holding : IsFresh env → (i : Input) → Holding Z env c (step env i)
  unfolding step
  step-Holding fresh (Run.event e) = handle_event-Holding e
  step-Holding fresh (Run.command k) = handle_command-Holding Z env c fresh k
  step-Holding fresh Run.tick = handle_tick-Holding
  step-Holding fresh Run.commands_closed = search keeps_rules
