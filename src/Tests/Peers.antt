-- ===== src/Tests/Peers.antt =====
-- The event loop's theorems, at peers 1 (Alice) and 2 (Bob).
use decent_share.Base.{
  ◌≡◌, refl, inl, inr, List, [], ◌∷◌, none, some, ok, nat_eq, arith, pair_eq, false,
}
use decent_share.Base.Dict
use decent_share.Base.Exec.{returned, expect, ◌>>=◌}
use decent_share.Network.Message.{
  response, TradeOffer, TradeResponse, offer_eq, inbound_trade_offer, inbound_trade_response,
  peer_found, username_found, register_username, find_peer_id, make_trade_offer, direct_message,
}
use decent_share.Network.EventLoop.Env.{
  Env, stored, queried, offer_sent, response_sent, replied, event_sent, offer_acknowledged,
  response_answered,
}
use decent_share.Network.EventLoop.State.{
  World, start, new, registering, messages, peer_ids, usernames, trade_offers, trade_responses,
}
use decent_share.Network.EventLoop.Swarm.{
  put_record, put_pending, send_offer, modify_loop, reply, get_record, send_message, take_pending,
  attempt, attempt_or_panic,
}
use decent_share.Network.EventLoop.Behaviours.Messaging.{
  handle_direct_messaging_message, expect_pending,
}
use decent_share.Network.EventLoop.Run
use decent_share.Network.EventLoop.Run.{
  Input, command, event, tick, commands_closed, step, run, handle_tick,
}
use decent_share.Network.EventLoop.Commands.{
  handle_command, handle_direct_message, handle_register_username, handle_find_peer_id,
  handle_find_peer_username, handle_make_trade_offer,
}
use decent_share.Network.EventLoop.Behaviours.Kademlia.{found_record, handle_get_record}
use decent_share.Network.EventLoop.Traces.{IsDisciplined}
use decent_share.Network.EventLoop.Traces.Steps.{run-IsDisciplined}
use decent_share.Network.EventLoop.Replies.{IsHeld, IsTracked}
use decent_share.Network.EventLoop.Replies.Runs.{run-IsHeld}
use decent_share.Network.EventLoop.Trades.Swap.{swap, swap_lem}
use decent_share.Network.EventLoop.Lookup.{register_then_find_peer_id, register_then_find_username}
use decent_share.Network.EventLoop.Progress.{HasRoom, AllExpected}
use decent_share.Network.EventLoop.Progress.Steps.{run_returns}
use decent_share.Tests.Setting.{peer, peer-IsFresh, peer-IsDecodable, peer-EncodeAlike}

abbrev pub alice : Env
alice = peer 1

abbrev bob : Env
bob = peer 2

abbrev fresh_start : World
fresh_start = start (new "alice" none)

fresh_start-IsTracked : IsTracked fresh_start
unfolding new
fresh_start-IsTracked registering id c h = cc (Dict.get-empty id)
fresh_start-IsTracked messages id c h = cc (Dict.get-empty id)
fresh_start-IsTracked peer_ids id c h = cc (Dict.get-empty id)
fresh_start-IsTracked usernames id c h = cc (Dict.get-empty id)
fresh_start-IsTracked trade_offers id c h = cc (Dict.get-empty id)
fresh_start-IsTracked trade_responses id c h = cc (Dict.get-empty id)

abbrev session : List Input
session =
    command (register_username "Alice" 10)
    ∷ command (make_trade_offer "cat.png" (7 ∷ []) 2 "dog.png" "trades/dog.png" 11)
    ∷ command (direct_message 1 "hello" 12)
    ∷ tick
    ∷ command (find_peer_id "bob" 13)
    ∷ commands_closed
    ∷ []

all_handled : (run alice session fresh_start).0 ≡ returned tt
unfolding run new step handle_command handle_register_username put_record put_pending send_offer
    handle_make_trade_offer modify_loop handle_direct_message reply handle_tick handle_find_peer_id
    get_record ◌>>=◌
all_handled = refl

run-IsHeld_example : IsHeld 12 (run alice session fresh_start).1
run-IsHeld_example =
    run-IsHeld alice (peer-IsFresh 1) 12 session fresh_start fresh_start-IsTracked
      (inr (inr (inl refl))) all_handled

run-IsDisciplined_example : IsDisciplined alice (run alice session fresh_start).1
run-IsDisciplined_example = run-IsDisciplined alice session fresh_start tt

alice-HasRoom : HasRoom alice
alice-HasRoom t key value = (_, refl)

-- A direct message that is delivered, and one that is not.
abbrev chatter : List Input
chatter =
    command (direct_message 2 "hello" 12)
    ∷ event (Run.direct_messaging_message 2 (response tt 1))
    ∷ tick
    ∷ command (direct_message 3 "hello" 13)
    ∷ event (Run.direct_messaging_outbound_failure 4 0)
    ∷ []

chatter-AllExpected : AllExpected alice chatter fresh_start
unfolding step handle_command handle_direct_message put_pending Dict.get Dict.insert Dict.remove
    Dict.empty new ◌>>=◌ Run.handle_event handle_direct_messaging_message take_pending send_message
    handle_tick expect_pending reply attempt_or_panic attempt expect
chatter-AllExpected = (tt, ((12, refl), (tt, (tt, ((13, refl), tt)))))

run_returns_example : (run alice chatter fresh_start).0 ≡ returned tt
run_returns_example =
    run_returns alice (λ t a. refl) alice-HasRoom chatter fresh_start chatter-AllExpected

abbrev cat_for_dog : TradeOffer
cat_for_dog = record { offered_file_name = "cat.png"; requested_file_name = "dog.png" }

abbrev no_dog : TradeResponse
no_dog = record {
  requested_file_name = "dog.png";
  offered_file_name = "cat.png";
  requested_file_bytes = none;
}

-- Bob declines as the client does, with neither a file nor a sender.
swap_lem_example :
    (a' : World) × (b' : World) × (swap alice bob "cat.png" "dog.png"
        (7 ∷ [])
        "trades/dog.png"
        none
        11
        none
        20
        21
        fresh_start
        fresh_start
      ≡ some (a', b'))
    × (a'.trace
        ≡ response_answered 21 (record {
          offered_file_name = "cat.png";
          requested_file_name = "dog.png";
          offered_file_bytes = none;
        })
          ∷ event_sent (inbound_trade_response 2 "cat.png" "dog.png" false)
          ∷ offer_sent 2 cat_for_dog 1
          ∷ [])
    × (b'.trace
        ≡ response_sent 1 no_dog 3
          ∷ event_sent (inbound_trade_offer "cat.png" 1 "dog.png")
          ∷ offer_acknowledged 20
          ∷ [])
    × (Dict.get a'.loop.outgoing_trade_offers (2, cat_for_dog) ≡ none)
    × (Dict.get b'.loop.inbound_trade_offers (1, cat_for_dog) ≡ none)
unfolding new
swap_lem_example =
    swap_lem alice bob "cat.png" "dog.png" (7 ∷ []) "trades/dog.png" none 11 none 20 21
      (λ t a. refl) (λ t a. refl) (λ e. omega arith) fresh_start fresh_start (λ e. Dict.get-empty 3)

-- Bob asks for the name that Alice registered in capitals.
find_alice : World
find_alice = (handle_find_peer_id bob "alice" 31 fresh_start).1

register_then_find_peer_id_example :
    ((handle_register_username alice "Alice" 30 fresh_start).1.trace
      ≡ stored (1 ∷ []) (97 ∷ 108 ∷ 105 ∷ 99 ∷ 101 ∷ []) (some 3)
        ∷ stored (97 ∷ 108 ∷ 105 ∷ 99 ∷ 101 ∷ []) (1 ∷ []) (some 1)
        ∷ [])
    × (find_alice.trace ≡ queried (97 ∷ 108 ∷ 105 ∷ 99 ∷ 101 ∷ []) 1 ∷ [])
    × ((handle_get_record bob (ok (found_record (1 ∷ []))) 1 find_alice).1.trace
        ≡ replied 31 (peer_found (some 1)) ∷ find_alice.trace)
unfolding find_alice
register_then_find_peer_id_example =
    register_then_find_peer_id alice bob (peer-EncodeAlike 1 2) (peer-IsDecodable 2) "Alice" 30 31
      fresh_start fresh_start 1 3 (refl, refl) "alice" refl

find_name : World
find_name = (handle_find_peer_username bob 1 31 fresh_start).1

register_then_find_username_example :
    ((handle_register_username alice "Alice" 30 fresh_start).1.trace
      ≡ stored (1 ∷ []) (97 ∷ 108 ∷ 105 ∷ 99 ∷ 101 ∷ []) (some 3)
        ∷ stored (97 ∷ 108 ∷ 105 ∷ 99 ∷ 101 ∷ []) (1 ∷ []) (some 1)
        ∷ [])
    × (find_name.trace ≡ queried (1 ∷ []) 1 ∷ [])
    × ((handle_get_record bob
          (ok (found_record (97 ∷ 108 ∷ 105 ∷ 99 ∷ 101 ∷ [])))
          1
          find_name).1.trace
        ≡ replied 31 (username_found (ok "alice")) ∷ find_name.trace)
unfolding find_name
register_then_find_username_example =
    register_then_find_username alice bob (peer-EncodeAlike 1 2) (peer-IsDecodable 2) "Alice" 30 31
      fresh_start fresh_start 1 3 (refl, refl) (peer-IsFresh 2) fresh_start-IsTracked
