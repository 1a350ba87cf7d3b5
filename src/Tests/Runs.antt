-- ===== src/Tests/Runs.antt =====
-- The theorems on whole runs of the event loop: Alice (1) is asked to register and fails, offers Bob (2)
-- a trade that he responds to twice, gets his offer and responds to it twice, and knows a rendezvous
-- server (9).
use decent_share.Base.{◌≤◌, suc, List, [], ◌∷◌, some, err}
use decent_share.Network.Message.{
  TradeOffer, TradeResponse, request, make_trade_offer, respond_trade, register_username,
}
use decent_share.Network.EventLoop.State.{World, start, new}
use decent_share.Network.EventLoop.Run
use decent_share.Network.EventLoop.Run.{Input, run, command, event, tick}
use decent_share.Network.EventLoop.Traces.{Every}
use decent_share.Network.EventLoop.Registration.Bounds.{requests, failures, requests-le-failures}
use decent_share.Network.EventLoop.Trades.Paid.{IsOwed, answers-IsOwed}
use decent_share.Network.EventLoop.Trades.Invited.{IsInvited, responses-IsInvited}
use decent_share.Network.EventLoop.Trades.Machine.{Deals, entry, take, rounds, labels, run-Refines}
use decent_share.Network.EventLoop.Rendezvous.Server.{IsAtServer, run-IsAtServer}
use decent_share.Tests.Peers.{alice}

abbrev cat_for_dog : TradeOffer
cat_for_dog = record { offered_file_name = "cat.png"; requested_file_name = "dog.png" }

abbrev owl_for_cat : TradeOffer
owl_for_cat = record { offered_file_name = "owl.png"; requested_file_name = "cat.png" }

abbrev dog : TradeResponse
dog = record {
  requested_file_name = "dog.png";
  offered_file_name = "cat.png";
  requested_file_bytes = some (8 ∷ []);
}

abbrev pub busy : List Input
busy =
    event Run.routing_updated
    ∷ command (register_username "Alice" 10)
    ∷ event (Run.put_record_progressed 2 (err 0))
    ∷ event Run.routing_updated
    ∷ event (Run.connection_established 9)
    ∷ event (Run.identify_received 4)
    ∷ command (make_trade_offer "cat.png" (7 ∷ []) 2 "dog.png" "trades/dog.png" 11)
    ∷ event (Run.trade_response_message 2 (request dog 20))
    ∷ event (Run.trade_response_message 2 (request dog 21))
    ∷ event (Run.trade_offering_message 2 (request owl_for_cat 22))
    ∷ command (respond_trade 2 "cat.png" "owl.png" (some (7 ∷ [])) (some 12))
    ∷ command (respond_trade 2 "cat.png" "owl.png" (some (7 ∷ [])) (some 13))
    ∷ tick
    ∷ []

abbrev ended : World
ended = (run alice busy (start (new "alice" (some 9)))).1

requests-le-failures_example : requests alice ended.trace ≤ suc (failures ended.trace)
requests-le-failures_example = requests-le-failures alice "alice" (some 9) busy

answers-IsOwed_example : Every IsOwed ended.trace
answers-IsOwed_example = answers-IsOwed alice "alice" (some 9) busy

responses-IsInvited_example : Every IsInvited ended.trace
responses-IsInvited_example = responses-IsInvited alice "alice" (some 9) busy

run-IsAtServer_example : Every (IsAtServer alice (some 9)) ended.trace
run-IsAtServer_example = run-IsAtServer alice (some 9) "alice" busy

run-Refines_example :
    Deals
      (entry alice (2, cat_for_dog) (start (new "alice" (some 9))))
      (take
        (rounds alice (2, cat_for_dog) busy (start (new "alice" (some 9))))
        (labels alice (2, cat_for_dog) busy))
      (entry alice (2, cat_for_dog) ended)
run-Refines_example = run-Refines alice (2, cat_for_dog) busy (start (new "alice" (some 9)))
