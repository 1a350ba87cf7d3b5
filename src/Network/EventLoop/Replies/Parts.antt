-- ===== src/Network/EventLoop/Replies/Parts.antt =====
-- The senders of the tables, under the parts of the handlers of behaviour_handlers.rs.
use decent_share.Base.{
  String, ◌≡◌, ◌⊎◌, inl, inr, List, [], ◌∷◌, Option, none, some, Result, ◌==◌, nat_eq, Bool, true,
  false, is_ok,
}
use decent_share.Base.Exec.{◌>>=◌, pure}
use decent_share.Base.Exec.Keeps.{
  Keeps, keeps_rules, Keeps-if, Keeps-bind, Keeps-then, Keeps-gets, Keeps-pure,
}
use decent_share.Network.Message.{
  PeerId, Sender, Bytes, FilePath, TradeResponse, Reply, QueryId, Channel, Multiaddr,
  PutRecordError, Cookie,
}
use decent_share.Network.EventLoop.Env.{Env, replied}
use decent_share.Network.EventLoop.State.{
  World, registering, messages, peer_ids, usernames, trade_offers, trade_responses,
}
use decent_share.Network.EventLoop.Swarm.{Handler, attempt, modify_loop}
use decent_share.Network.EventLoop.Behaviours.Kademlia.{
  answer_get_record, finish_registration, request_registration,
}
use decent_share.Network.EventLoop.Behaviours.Messaging.{expect_pending}
use decent_share.Network.EventLoop.Behaviours.Trading.{create_parents, exchange, complete_trade}
use decent_share.Network.EventLoop.Behaviours.Discovery.{
  Registration, handle_mdns_discovered, handle_mdns_expired, dial_all, discover_all,
  unwrap_rendezvous, discover, register_at,
}
use decent_share.Network.EventLoop.Replies.{HeldOr, IsTracked}
use decent_share.Network.EventLoop.Replies.Handlers.{
  Holds, Holding, act-Holding, attempt-Holding, attempt_or_panic-Holding, send_event-Holding,
  reply-Holding, modify_loop-Holding, take_outgoing-Holding, take_pending-Holding, reply_to-Holds,
  reply_or-Holds, inbound_trade_offers-Holding, has_registered_username-Holding, cookie-Holding,
  replied-Holds, reply-Holds, log-Holds,
}

flag-IsTracked :
    (w : World) (b : Bool)
    → IsTracked w
    → IsTracked (record w { loop = record (w.loop) { has_registered_username = b } })
flag-IsTracked w b tracked registering = tracked registering
flag-IsTracked w b tracked messages = tracked messages
flag-IsTracked w b tracked peer_ids = tracked peer_ids
flag-IsTracked w b tracked usernames = tracked usernames
flag-IsTracked w b tracked trade_offers = tracked trade_offers
flag-IsTracked w b tracked trade_responses = tracked trade_responses

module _ (Z : Type 0) (env : Env) (c : Sender) where
  pub ruleset holding_rules = (
    keeps_rules, act-Holding, attempt-Holding, attempt_or_panic-Holding, send_event-Holding,
    reply-Holding, take_outgoing-Holding, inbound_trade_offers-Holding,
    has_registered_username-Holding, cookie-Holding,
  )

  pub answer_get_record-Holding :
      (id : QueryId) (p u : Reply) → Holding Z env c (answer_get_record env id p u)
  unfolding answer_get_record
  answer_get_record-Holding id p u = take_pending-Holding Z env c peer_ids id _ (
      reply_or-Holds Z env c p _ _
        (take_pending-Holding Z env c usernames id _ (reply_to-Holds Z env c u _)))

  pub finish_registration-Holds :
      (status : Result (Unit {0}) PutRecordError) (d : Option Sender) (w : World)
      → IsTracked w
      → HeldOr Z c w ⊎ (d ≡ some c)
      → Holds Z env c (finish_registration env d status w).1
  unfolding finish_registration pure modify_loop ◌>>=◌
  finish_registration-Holds status none w tracked (inl held) = (tracked, held)
  finish_registration-Holds status none w tracked (inr e) = cc
  finish_registration-Holds status (some d) w tracked (inl held) =
      (reply-Holding Z env c d _ _).at _
        ((has_registered_username-Holding Z env c (λ s. is_ok status)).at w (tracked, held))
  finish_registration-Holds status (some d) w tracked (inr e) =
      reply-Holds Z env c d _ _ _ (flag-IsTracked w _ tracked) (inr e)

  -- A sender that must be there.
  pub expected-Holds :
      (f : Sender → Handler (Unit {0}))
      → ((d : Sender) (w : World)
          → IsTracked w
          → HeldOr Z c w ⊎ (some d ≡ some c)
          → Holds Z env c (f d w).1)
      → (d : Option Sender) (w : World) → IsTracked w
      → HeldOr Z c w ⊎ (d ≡ some c)
      → Holds Z env c ((expect_pending env d >>= f) w).1
  unfolding expect_pending ◌>>=◌
  expected-Holds f go_on none w tracked (inl held) = (tracked, held)
  expected-Holds f go_on none w tracked (inr e) = cc
  expected-Holds f go_on (some d) w tracked held = go_on d w tracked held

  pub settled-Holds :
      (v : Reply) (d : Sender) (w : World)
      → IsTracked w
      → HeldOr Z c w ⊎ (some d ≡ some c)
      → Holds Z env c ((attempt env (replied d v) >>= λ _. pure tt) w).1
  unfolding attempt ◌>>=◌
  settled-Holds v d w tracked held = replied-Holds Z env c d v w tracked held

  pub create_parents-Holding : (p : Option FilePath) → Holding Z env c (create_parents env p)
  unfolding create_parents
  create_parents-Holding none = search holding_rules
  create_parents-Holding (some p) = search holding_rules

  pub exchange-Holding :
      (file : Option Bytes) (b : Bytes) (path : FilePath)
      → Holding Z env c (exchange env file b path)
  unfolding exchange
  exchange-Holding none b path = search holding_rules
  exchange-Holding (some file) b path = search (holding_rules, create_parents-Holding)

  pub complete_trade-Holding :
      (entry : Option (Bytes × FilePath)) (r : TradeResponse) (channel : Channel) (peer : PeerId)
      → Holding Z env c (complete_trade env entry r channel peer)
  unfolding complete_trade
  complete_trade-Holding none r channel peer = search holding_rules
  complete_trade-Holding (some (b, path)) r channel peer = search (holding_rules, exchange-Holding)

  pub dial_all-Holding :
      (peer : PeerId) (addresses : List Multiaddr) → Holding Z env c (dial_all env peer addresses)
  unfolding dial_all
  dial_all-Holding peer [] = search holding_rules
  dial_all-Holding peer (a ∷ addresses) =
      Keeps-then _ _ (search holding_rules)
        (Keeps-then _ _ (search holding_rules) (dial_all-Holding peer addresses))

  pub discover_all-Holding : (rs : List Registration) → Holding Z env c (discover_all env rs)
  unfolding discover_all
  discover_all-Holding [] = search holding_rules
  discover_all-Holding (r ∷ rs) =
      Keeps-if (r.peer_id == env.local_peer_id) _ _ (search holding_rules) (
        Keeps-then _ _ (dial_all-Holding r.peer_id r.addresses)
          (Keeps-then _ _ (search holding_rules) (discover_all-Holding rs)))

  pub unwrap_rendezvous-Holding : (p : Option PeerId) → Holding Z env c (unwrap_rendezvous env p)
  unfolding unwrap_rendezvous
  unwrap_rendezvous-Holding none = search holding_rules
  unwrap_rendezvous-Holding (some p) = search holding_rules

  pub discover-Holding : (k : Option Cookie) → Holding Z env c (discover env k)
  unfolding discover
  discover-Holding k = search (holding_rules, unwrap_rendezvous-Holding)

  pub register_at-Holding : (p : Option PeerId) → Holding Z env c (register_at env p)
  unfolding register_at
  register_at-Holding none = search holding_rules
  register_at-Holding (some p) = search holding_rules

  pub request_registration-Holding :
      (b : Bool) (username : String) → Holding Z env c (request_registration env b username)
  unfolding request_registration
  request_registration-Holding true username = search holding_rules
  request_registration-Holding false username =
      Keeps-then _ _ (send_event-Holding Z env c _)
        (has_registered_username-Holding Z env c (λ s. true))

  pub mdns_discovered-Holding :
      (l : List (PeerId × Multiaddr)) → Holding Z env c (handle_mdns_discovered env l)
  unfolding handle_mdns_discovered
  mdns_discovered-Holding [] = search holding_rules
  mdns_discovered-Holding ((p, a) ∷ l) =
      Keeps-then _ _ (search holding_rules)
        (Keeps-then _ _ (search holding_rules) (mdns_discovered-Holding l))

  pub mdns_expired-Holding :
      (l : List (PeerId × Multiaddr)) → Holding Z env c (handle_mdns_expired env l)
  unfolding handle_mdns_expired
  mdns_expired-Holding [] = search holding_rules
  mdns_expired-Holding ((p, a) ∷ l) = Keeps-then _ _ (search holding_rules) (mdns_expired-Holding l)
