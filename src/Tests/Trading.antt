-- ===== src/Tests/Trading.antt =====
-- The theorems on single trades and on peers that are met, and those on the cache of usernames.
use decent_share.Base.{
  ◌≡◌, refl, inl, [], ◌∷◌, Option, none, some, err, nat_eq, arith, pair_eq, string_eq, true, Bool,
  ◌+◌,
}
use decent_share.Base.Dict
use decent_share.Base.Exec.{returned}
use decent_share.Network.Message.{
  PeerId, Bytes, TradeOffer, TradeResponse, offer_eq, request, inbound_trade_response, delivered,
  outbound_failure, registered, registration_request,
}
use decent_share.Network.UsernameStore
use decent_share.Network.UsernameStore.{UsernameStore}
use decent_share.Network.UsernameStore.Consistency.{
  IsConsistent, insert_lem, default-IsConsistent, insert-IsConsistent, insert-stale,
}
use decent_share.Network.EventLoop.Env.{
  Env, offer_sent, response_sent, replied, event_sent, response_answered, dialled, address_added,
  explicit_peer_added,
}
use decent_share.Network.EventLoop.State.{World, start, new}
use decent_share.Network.EventLoop.Commands.{handle_make_trade_offer, handle_respond_trade}
use decent_share.Network.EventLoop.Behaviours.Trading.{
  handle_trade_response_message, handle_trade_offering_outbound_failure,
}
use decent_share.Network.EventLoop.Behaviours.Kademlia.{
  handle_put_record, handle_kademlia_routing_updated,
}
use decent_share.Network.EventLoop.Trades.Failure.{failed_offer_stays}
use decent_share.Network.EventLoop.Registration.{failed_registration_retried}
use decent_share.Network.EventLoop.Behaviours.Discovery.{Registration, discover_all}
use decent_share.Network.EventLoop.Trades.{trade_response_honoured, trade_response_once}
use decent_share.Network.EventLoop.Trades.Offers.{
  make_trade_offer_lem, respond_trade_lem, respond_trade_once,
}
use decent_share.Network.EventLoop.Rendezvous.{discover_stops_at_self}
use decent_share.Tests.Setting.{peer}

abbrev alice : Env
alice = peer 1

abbrev cat_for_dog : TradeOffer
cat_for_dog = record { offered_file_name = "cat.png"; requested_file_name = "dog.png" }

abbrev with_dog : Option Bytes → TradeResponse
with_dog file = record {
  requested_file_name = "dog.png";
  offered_file_name = "cat.png";
  requested_file_bytes = file;
}

abbrev fresh_start : World
fresh_start = start (new "alice" none)

-- Alice has offered a trade to Bob, who is peer 2.
abbrev offering : World
offering = record {
  loop = record (fresh_start.loop) {
    outgoing_trade_offers = Dict.insert Dict.empty (2, cat_for_dog) (7 ∷ [], "trades/dog.png");
  };
  trace = [];
}

-- Bob has offered Alice the cat for the dog.
abbrev offered : World
offered = record {
  loop = record (fresh_start.loop) {
    inbound_trade_offers = Dict.insert Dict.empty (2, cat_for_dog) tt;
  };
  trace = [];
}

trade_response_honoured_example :
    handle_trade_response_message alice (request (with_dog none) 21) 2 offering ≡ (
      returned tt,
      record {
        loop = record (offering.loop) {
          outgoing_trade_offers = Dict.remove offering.loop.outgoing_trade_offers (2, cat_for_dog);
        };
        trace =
            response_answered 21 (record {
              offered_file_name = "cat.png";
              requested_file_name = "dog.png";
              offered_file_bytes = none;
            })
            ∷ event_sent (inbound_trade_response 2 "cat.png" "dog.png" Bool.false)
            ∷ [];
      },
    )
trade_response_honoured_example =
    trade_response_honoured alice (λ t a. refl) (with_dog none) 21 2 offering
      (Dict.get-insert_self Dict.empty (2, cat_for_dog) (7 ∷ [], "trades/dog.png"))

abbrev honoured : World
honoured = (handle_trade_response_message alice (request (with_dog none) 21) 2 offering).1

trade_response_once_example :
    (handle_trade_response_message alice (request (with_dog (some (9 ∷ []))) 22) 2 honoured).1.trace
    ≡ honoured.trace
trade_response_once_example =
    trade_response_once alice (with_dog none) (with_dog (some (9 ∷ []))) 21 22 2 offering refl

make_trade_offer_lem_example :
    let after =
      (handle_make_trade_offer alice "cat.png"
        (7 ∷ [])
        2
        "dog.png"
        "trades/dog.png"
        11
        fresh_start).1 in
    (Dict.get after.loop.outgoing_trade_offers (2, cat_for_dog) ≡ some (7 ∷ [], "trades/dog.png"))
    × (after.trace ≡ offer_sent 2 cat_for_dog 1 ∷ [])
    × (Dict.get after.loop.pending_trade_offer_request 1 ≡ some 11)
make_trade_offer_lem_example =
    make_trade_offer_lem alice "cat.png" (7 ∷ []) 2 "dog.png" "trades/dog.png" 11 fresh_start
      (2, cat_for_dog) (λ e. omega arith)

-- Alice declines as the client does, with neither a file nor a sender.
abbrev declined : World
declined = (handle_respond_trade alice 2 "dog.png" "cat.png" none none offered).1

respond_trade_lem_example :
    (declined.trace ≡ response_sent 2 (with_dog none) 1 ∷ [])
    × (Dict.get declined.loop.pending_trade_response_response 1 ≡ none)
    × (Dict.get declined.loop.inbound_trade_offers (2, cat_for_dog) ≡ none)
unfolding new Dict.get Dict.empty
respond_trade_lem_example =
    respond_trade_lem alice 2 "dog.png" "cat.png" none none offered (2, cat_for_dog) 1
      (Dict.get-insert_self Dict.empty (2, cat_for_dog) tt)

respond_trade_once_example :
    (handle_respond_trade alice 2 "dog.png" "cat.png" none none declined).1.trace ≡ declined.trace
respond_trade_once_example =
    respond_trade_once alice 2 "dog.png" "cat.png" none none none none offered

abbrev registration : PeerId → Registration
registration p = record { peer_id = p; addresses = (100 + p) ∷ [] }

discover_stops_at_self_example :
    discover_all alice (registration 2 ∷ registration 1 ∷ registration 3 ∷ []) fresh_start ≡ (
      returned tt,
      record (fresh_start) {
        trace = explicit_peer_added 2 ∷ address_added 2 102 ∷ dialled 104 ∷ [];
      },
    )
discover_stops_at_self_example =
    discover_stops_at_self alice (λ t a. refl) (registration 2 ∷ []) (registration 1)
      (registration 3 ∷ []) fresh_start ((λ e. omega arith), tt) refl

abbrev known : UsernameStore
known = UsernameStore.insert UsernameStore.default "bob" 2

insert-IsConsistent_example : IsConsistent known
unfolding UsernameStore.get_peer_id UsernameStore.get_username UsernameStore.default
insert-IsConsistent_example =
    insert-IsConsistent UsernameStore.default "bob" 2 default-IsConsistent
      (inl (Dict.get-empty "bob", Dict.get-empty 2))

insert-stale_example :
    let taken = UsernameStore.insert known "bob" 3 in
    (UsernameStore.get_username taken 2 ≡ some "bob")
    × (UsernameStore.get_peer_id taken "bob" ≡ some 3)
insert-stale_example =
    insert-stale known "bob" 3 2 ((insert_lem UsernameStore.default "bob" "bob" 2 2).1)
      (λ e. omega arith)

failed_offer_stays_example :
    let sent =
      (handle_make_trade_offer alice "cat.png"
        (7 ∷ [])
        2
        "dog.png"
        "trades/dog.png"
        11
        fresh_start).1 in
    let failed = (handle_trade_offering_outbound_failure alice 5 1 sent).1 in
    (failed.trace ≡ replied 11 (delivered (err (outbound_failure 5))) ∷ sent.trace)
    × (Dict.get failed.loop.pending_trade_offer_request 1 ≡ none)
    × (Dict.get failed.loop.outgoing_trade_offers (2, cat_for_dog)
        ≡ some (7 ∷ [], "trades/dog.png"))
failed_offer_stays_example =
    failed_offer_stays alice "cat.png" (7 ∷ []) 2 "dog.png" "trades/dog.png" 11 fresh_start 5
      (λ e. omega arith)

-- Alice's registration waits for the end of query 4.
abbrev registering : World
registering = record {
  loop = record (fresh_start.loop) {
    pending_register_username = Dict.insert Dict.empty 4 9;
    has_registered_username = true;
    username = "alice";
  };
  trace = [];
}

failed_registration_retried_example :
    let failed = (handle_put_record alice (err 6) 4 registering).1 in
    let asked = (handle_kademlia_routing_updated alice failed).1 in
    (failed.trace ≡ replied 9 (registered (err 6)) ∷ [])
    × (asked.trace ≡ event_sent (registration_request "alice") ∷ failed.trace)
    × (handle_kademlia_routing_updated alice asked ≡ (returned tt, asked))
failed_registration_retried_example =
    failed_registration_retried alice (λ t a. refl) 4 6 9 registering
      (Dict.get-insert_self Dict.empty 4 9)
