-- ===== src/Tests/Startup.antt =====
-- The theorems on set-up, on the program as a whole, and on the rendezvous server's binary.
use decent_share.Base.Dict
use decent_share.Base.{
  ◌≡◌, refl, inl, List, [], ◌∷◌, none, some, ok, err, ◌==◌, string_eq, nat_eq, true, false,
  if◌then◌else◌,
}
use decent_share.Base.Exec.{◌>>=◌, pure, expect, panic}
use decent_share.Network.UsernameStore
use decent_share.Network.EventLoop.State
use decent_share.Network.Setup
use decent_share.Network.Setup.{
  SetupEnv, SetupAct, swarm_built, mode_set_to_server, subscribed, listened, dialled, behaviour,
  listen, connect, build_swarm,
}
use decent_share.Network.Setup.Plan.{Follows, plan, server, new-Follows}
use decent_share.Network.Setup.Dialled.{Dialled, new-Dialled}
use decent_share.RendezvousServer
use decent_share.RendezvousServer.{ServerEnv, SwarmEvent}
use decent_share.RendezvousServer.Log.{AllOrNothing, main-AllOrNothing}
use decent_share.Main
use decent_share.Main.Files.{IsFrom, IsRead, run-IsRead}
use decent_share.Network.Message.{request, respond_trade}
use decent_share.Network.EventLoop.Run
use decent_share.Network.EventLoop.Run.{Input, event, command}
use decent_share.Network.EventLoop.Invariants.Steps.{Each}
use decent_share.Network.EventLoop.Traces.{Every}
use decent_share.Network.EventLoop.Trades.Sources.{IsSourced}
use decent_share.Network.EventLoop.State.{start}
use decent_share.Task.{TaskTrace, ask, send_command, query, do_act, println, received}
use decent_share.Action.{
  handle_accept_trade, or_io_error, or_return, store_received, create_parents,
}
use decent_share.Interface.{
  handle_std_in, handle_network_event, run_arguments, split_string, dispatch, run_accept, or_usage,
  report,
}
use decent_share.Network.Client.{
  accept_trade, with_peer, or_bail, get_peer_id, or_find_user, find_user, remember_peer_id,
}
use decent_share.Main.Program.{Arguments, main, IsSafe, main-IsSafe}
use decent_share.Tests.Peers.{alice}
use decent_share.Tests.Runs.{busy}
use decent_share.Tests.Tasks.{accepting, evening}

-- A machine on which all goes well, and the addresses are numbered.
abbrev home : SetupEnv
home = record {
  local_peer_id = 1;
  gossipsub_config = λ seconds. ok tt;
  with_tcp = ok tt;
  gossipsub_behaviour = ok tt;
  mdns_behaviour = λ p. ok tt;
  subscribe = λ topic. ok tt;
  parse_multiaddr = λ s.
      if s == "/ip4/0.0.0.0/udp/0/quic-v1"
      then some 1
      else if s == "/ip4/0.0.0.0/tcp/0"
      then some 2
      else if s == "/ip4/10.0.0.9/tcp/62649"
      then some 3
      else none;
  parse_peer_id = λ s. some 9;
  show_number = λ n. "62649";
  listen_on = λ a. true;
  dial = λ a. true;
}

-- One on which the second port is taken.
abbrev crowded : SetupEnv
crowded = record home { listen_on = λ a. a == 1 }

new-Follows_example :
    Follows
      (Setup.new crowded "alice" (some "10.0.0.9"))
      (plan crowded (some "10.0.0.9"))
      (UsernameStore.default, State.new "alice" (server crowded (some "10.0.0.9")))
new-Follows_example = new-Follows crowded "alice" (some "10.0.0.9")

abbrev set_up : List SetupAct
set_up =
    dialled 3
    ∷ listened 2
    ∷ listened 1
    ∷ subscribed "chat-room"
    ∷ mode_set_to_server
    ∷ swarm_built (behaviour 1) 60
    ∷ []

succeeds :
    Setup.new home "alice" (some "10.0.0.9") []
    ≡ (ok (UsernameStore.default, State.new "alice" (some 9)), set_up)
unfolding Setup.new listen connect build_swarm
succeeds = refl

new-Dialled_example : Dialled home "alice" "10.0.0.9" (State.new "alice" (some 9)) set_up
new-Dialled_example =
    new-Dialled home "alice" "10.0.0.9" UsernameStore.default (State.new "alice" (some 9)) set_up
      succeeds

abbrev arguments : Arguments
arguments = record { username = "alice"; rendezvous_address = some "10.0.0.9" }

main-IsSafe_example :
    IsSafe home alice accepting arguments (main home alice accepting arguments busy evening)
main-IsSafe_example = main-IsSafe home alice accepting arguments busy evening

abbrev deaf : ServerEnv
deaf = record {
  keypair = λ bytes. some 9;
  with_tcp = ok tt;
  with_behaviour = λ b. ok tt;
  parse_multiaddr = λ s. some 3;
  listen_on = λ a. false;
  show_peer_id = λ p. "peer";
  show_number = λ n. "number";
}

abbrev day : List SwarmEvent
day =
    RendezvousServer.connection_established 1
    ∷ RendezvousServer.peer_registered 1 "rendezvous"
    ∷ RendezvousServer.discover_served 1 ("rendezvous" ∷ [])
    ∷ RendezvousServer.unhandled "ping"
    ∷ RendezvousServer.connection_closed 1
    ∷ []

abbrev offline : ServerEnv
offline = record deaf { with_tcp = err 1 }

main-AllOrNothing_example : AllOrNothing day (RendezvousServer.main offline day [])
main-AllOrNothing_example = main-AllOrNothing offline day

-- Bob offers his cat for the dog, and the command of the first acceptance comes.
abbrev morning : List Input
morning =
    event (
      Run.trade_offering_message 2
        (request (record { offered_file_name = "cat"; requested_file_name = "dog" }) 20))
    ∷ command (respond_trade 2 "dog" "cat" (some (7 ∷ [])) (some 0))
    ∷ []

abbrev done : TaskTrace
done =
    (Main.run accepting evening
      (record { username_store = UsernameStore.default; trace = [] })).1.trace

issued : Each (IsFrom done) morning
unfolding Main.run Main.turn handle_std_in run_arguments split_string dispatch run_accept or_usage
    report handle_accept_trade or_io_error or_return store_received create_parents accept_trade
    with_peer or_bail get_peer_id or_find_user find_user remember_peer_id UsernameStore.get_peer_id
    UsernameStore.default Dict.get Dict.empty UsernameStore.insert Dict.insert ask send_command
    query do_act println received pure expect ◌>>=◌ handle_network_event panic
issued = (tt, (inl refl, tt))

run-IsRead_example :
    Every
      (IsSourced (IsRead accepting done))
      (Run.run alice morning (start (State.new "alice" none))).1.trace
run-IsRead_example =
    run-IsRead accepting alice "alice" none UsernameStore.default morning evening issued
