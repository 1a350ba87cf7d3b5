-- ===== src/Network/EventLoop/Progress/Parts.antt =====
-- The panics of the commands, and of the parts of the handlers of behaviour_handlers.rs.
use decent_share.Base.{
  String, List, [], ◌∷◌, Option, none, some, Result, ◌==◌, nat_eq, Bool, true, false,
}
use decent_share.Network.Message.{
  PeerId, Sender, Bytes, FilePath, TradeResponse, Reply, RequestId, QueryId, Channel, Multiaddr,
  Command, register_username, find_peer_id, find_peer_username, make_trade_offer, respond_trade,
  send_chat_message, direct_message, PutRecordError,
}
use decent_share.Network.EventLoop.Env.{Env}
use decent_share.Network.EventLoop.Commands.{
  handle_register_username, handle_find_peer_id, handle_find_peer_username, handle_make_trade_offer,
  refuse_trade, await_response, handle_respond_trade, handle_send_chat_message,
  handle_direct_message, handle_command,
}
use decent_share.Network.EventLoop.Behaviours.Kademlia.{
  answer_get_record, finish_registration, request_registration,
}
use decent_share.Network.EventLoop.Behaviours.Trading.{create_parents, exchange, complete_trade}
use decent_share.Network.EventLoop.Behaviours.Discovery.{
  Registration, handle_mdns_discovered, handle_mdns_expired, dial_all, discover_all, register_at,
}
use decent_share.Network.EventLoop.Trades.{IsCooperative}
use decent_share.Network.EventLoop.Progress.{
  HasRoom, IsExpected, Returns, Returns-then, Returns-if, returns_rules,
}

module _ (env : Env) (cooperative : IsCooperative env) (room : HasRoom env) where
  pub refuse_trade-Returns :
      (offered requested : String) (c : Option Sender)
      → Returns (refuse_trade env offered requested c)
  unfolding refuse_trade
  refuse_trade-Returns offered requested none = search returns_rules
  refuse_trade-Returns offered requested (some c) = search returns_rules

  pub await_response-Returns :
      (c : Option Sender) (id : RequestId) → Returns (await_response env c id)
  unfolding await_response
  await_response-Returns none id = search returns_rules
  await_response-Returns (some c) id = search returns_rules

  pub handle_command-Returns : (c : Command) → Returns (handle_command env c)
  unfolding handle_command
  handle_command-Returns (register_username u c) =
      unfold handle_register_username in search returns_rules
  handle_command-Returns (find_peer_id u c) = unfold handle_find_peer_id in search returns_rules
  handle_command-Returns (find_peer_username p c) =
      unfold handle_find_peer_username in search returns_rules
  handle_command-Returns (make_trade_offer o b p r f c) =
      unfold handle_make_trade_offer in search returns_rules
  handle_command-Returns (respond_trade p r o b c) =
      unfold handle_respond_trade in
      search (returns_rules, refuse_trade-Returns, await_response-Returns)
  handle_command-Returns (send_chat_message m c) =
      unfold handle_send_chat_message in search returns_rules
  handle_command-Returns (direct_message p m c) =
      unfold handle_direct_message in search returns_rules

  pub answer_get_record-Returns :
      (id : QueryId) (p u : Reply) → Returns (answer_get_record env id p u)
  unfolding answer_get_record
  answer_get_record-Returns id p u = search returns_rules

  pub finish_registration-Returns :
      (c : Option Sender) (status : Result (Unit {0}) PutRecordError)
      → Returns (finish_registration env c status)
  unfolding finish_registration
  finish_registration-Returns none status = search returns_rules
  finish_registration-Returns (some c) status = search returns_rules

  pub request_registration-Returns :
      (b : Bool) (username : String) → Returns (request_registration env b username)
  unfolding request_registration
  request_registration-Returns true username = search returns_rules
  request_registration-Returns false username = search returns_rules

  pub create_parents-Returns : (p : Option FilePath) → Returns (create_parents env p)
  unfolding create_parents
  create_parents-Returns none = search returns_rules
  create_parents-Returns (some p) = search returns_rules

  pub exchange-Returns :
      (file : Option Bytes) (b : Bytes) (path : FilePath) → Returns (exchange env file b path)
  unfolding exchange
  exchange-Returns none b path = search returns_rules
  exchange-Returns (some file) b path = search (returns_rules, create_parents-Returns)

  pub complete_trade-Returns :
      (entry : Option (Bytes × FilePath)) (r : TradeResponse) (channel : Channel) (peer : PeerId)
      → Returns (complete_trade env entry r channel peer)
  unfolding complete_trade
  complete_trade-Returns none r channel peer = search returns_rules
  complete_trade-Returns (some (b, path)) r channel peer = search (returns_rules, exchange-Returns)

  pub dial_all-Returns :
      (peer : PeerId) (addresses : List Multiaddr) → Returns (dial_all env peer addresses)
  unfolding dial_all
  dial_all-Returns peer [] = search returns_rules
  dial_all-Returns peer (a ∷ addresses) =
      Returns-then _ _ (search returns_rules)
        (Returns-then _ _ (search returns_rules) (dial_all-Returns peer addresses))

  pub discover_all-Returns : (rs : List Registration) → Returns (discover_all env rs)
  unfolding discover_all
  discover_all-Returns [] = search returns_rules
  discover_all-Returns (r ∷ rs) =
      Returns-if (r.peer_id == env.local_peer_id) _ _ (search returns_rules) (
        Returns-then _ _ (dial_all-Returns r.peer_id r.addresses)
          (Returns-then _ _ (search returns_rules) (discover_all-Returns rs)))

  pub register_at-Returns : (p : Option PeerId) → Returns (register_at env p)
  unfolding register_at
  register_at-Returns none = search returns_rules
  register_at-Returns (some p) = search returns_rules

  pub mdns_discovered-Returns :
      (l : List (PeerId × Multiaddr)) → Returns (handle_mdns_discovered env l)
  unfolding handle_mdns_discovered
  mdns_discovered-Returns [] = search returns_rules
  mdns_discovered-Returns ((p, a) ∷ l) =
      Returns-then _ _ (search returns_rules)
        (Returns-then _ _ (search returns_rules) (mdns_discovered-Returns l))

  pub mdns_expired-Returns : (l : List (PeerId × Multiaddr)) → Returns (handle_mdns_expired env l)
  unfolding handle_mdns_expired
  mdns_expired-Returns [] = search returns_rules
  mdns_expired-Returns ((p, a) ∷ l) =
      Returns-then _ _ (search returns_rules) (mdns_expired-Returns l)

pub ruleset handler_rules = (
  returns_rules, answer_get_record-Returns, finish_registration-Returns,
  request_registration-Returns, complete_trade-Returns, register_at-Returns,
)
