-- ===== src/Interface.antt =====
-- src/interface.rs: the user's commands, and what the user is told of the network's events. The
-- regular expression of `split_string` is matched by the regex library: `matches` has the texts of
-- its successive matches.
pub mod Usage
pub mod Parsing
pub mod Invariants
use decent_share.Base.{
  ℕ, String, ◌<>◌, Bool, true, false, List, [], ◌∷◌, Option, none, some, Result, ok, err, ◌==◌,
  string_eq, if◌then◌else◌, get_elem?, is_some,
}
use decent_share.Base.Exec.{pure, panic, ◌>>=◌, ◌>>◌}
use decent_share.Network.Message.{
  Error, PublishError, insufficient_peers, message_too_large, other, PutRecordError, PeerId, Event,
  inbound_trade_offer, inbound_trade_response, inbound_direct_message, inbound_chat,
  registration_request,
}
use decent_share.Network.Client
use decent_share.Action.{handle_send, handle_trade, handle_accept_trade}
use decent_share.Task.{Task, TaskEnv, do_act, println, eprintln, exited}
use Usage.{trade_usage, send_usage, dm_usage, accept_usage, decline_usage}

abbrev pub Handler : Type 0
Handler = Task (Unit {0})

-- `let Some(x) = arguments.get(i) else { println!(usage); return }`
unfoldable pub or_usage : String → Option String → (String → Handler) → Handler
or_usage usage none rest = println usage
or_usage usage (some x) rest = rest x

abbrev pub argument : String → List String → ℕ → (String → Handler) → Handler
argument usage arguments i rest = or_usage usage (get_elem? arguments i) rest

module _ (env : TaskEnv) where
  unfoldable pub split_string : String → List String
  split_string input = env.matches input

  -- `if let Err(error) = result { eprintln!("{prefix}: {error:?}") }`
  unfoldable pub report : String → Result (Unit {0}) Error → Handler
  report prefix (ok _) = pure tt
  report prefix (err error) = eprintln (prefix <> ": " <> env.show_error error)

  unfoldable pub report_send : Result (Unit {0}) PublishError → Handler
  report_send (ok _) = pure tt
  report_send (err insufficient_peers) = eprintln "No peers are connected, unable to publish chat!"
  report_send (err message_too_large) = eprintln "Message was too large. Please use less characters"
  report_send (err (other n)) =
      eprintln ("Error sending chat: " <> env.show_publish_error (other n))

  unfoldable pub run_send : List String → Handler
  unfolding or_usage report_send
  run_send arguments =
      argument send_usage arguments 1
        λ message. (do result ← handle_send env message; report_send result)

  unfoldable pub run_trade : List String → Handler
  unfolding or_usage report
  run_trade arguments = argument trade_usage arguments 1 λ offered_file_name.
      argument trade_usage arguments 2 λ offered_file_path.
        argument trade_usage arguments 3 λ username.
          argument trade_usage arguments 4 λ requested_file_name.
            argument trade_usage arguments 5 λ requested_file_path. (do
              result ←
                  handle_trade env offered_file_name offered_file_path username requested_file_name
                    requested_file_path
              report "Error offering trade" result)

  unfoldable pub run_dm : List String → Handler
  unfolding or_usage report
  run_dm arguments = argument dm_usage arguments 1 λ username.
      argument dm_usage arguments 2 λ message. (do
        result ← Client.direct_message env username message
        report "Error sending direct message" result)

  unfoldable pub run_accept : List String → Handler
  unfolding or_usage report
  run_accept arguments = argument accept_usage arguments 1 λ username.
      argument accept_usage arguments 2 λ offered_file_name.
        argument accept_usage arguments 3 λ offered_file_path.
          argument accept_usage arguments 4 λ requested_file_name.
            argument accept_usage arguments 5 λ requested_file_path. (do
              result ←
                  handle_accept_trade env username offered_file_name offered_file_path
                    requested_file_name requested_file_path
              report "Error accepting trade" result)

  unfoldable pub run_decline : List String → Handler
  unfolding or_usage report
  run_decline arguments = argument decline_usage arguments 1 λ username.
      argument decline_usage arguments 2 λ offered_file_name.
        argument decline_usage arguments 3 λ requested_file_name. (do
          result ← Client.decline_trade env username offered_file_name requested_file_name
          report "Error declining trade" result)

  -- The `match` on the action in lower case.
  unfoldable pub dispatch : String → List String → Handler
  unfolding run_send run_trade run_dm run_accept run_decline
  dispatch action arguments =
      if action == "send"
      then run_send arguments
      else if action == "trade"
      then run_trade arguments
      else if action == "dm"
      then run_dm arguments
      else if action == "accept"
      then run_accept arguments
      else if action == "decline"
      then run_decline arguments
      else println ("Unknown action '" <> action <> "'")

  unfoldable pub run_arguments : List String → Handler
  unfolding dispatch
  run_arguments [] = println "No action specified"
  run_arguments (action ∷ rest) = dispatch (env.to_lowercase action) (action ∷ rest)

  -- `none` is the end of the input.
  unfoldable pub handle_std_in : Result (Option String) ℕ → Handler
  unfolding run_arguments split_string
  handle_std_in (ok (some command)) = run_arguments (split_string command)
  handle_std_in (ok none) = pure tt
  handle_std_in (err error) = eprintln ("Error reading command: " <> env.show_io_error error)

  -- The line that names the sender of a message, or the failure to find the name.
  unfoldable pub print_sender : String → String → Result String Error → Handler
  print_sender prefix suffix (ok username) = println (prefix <> username <> suffix)
  print_sender prefix suffix (err error) =
      println ("Error fetching username: " <> env.show_error error)

  unfoldable pub print_from : String → String → PeerId → Handler
  unfolding print_sender
  print_from prefix suffix peer_id = do
    username ← Client.get_username env peer_id
    print_sender prefix suffix username

  abbrev pub name_or_error : Result String Error → String
  name_or_error (ok username) = username
  name_or_error (err error) = env.error_to_string error

  unfoldable pub finish_register : String → Result (Unit {0}) PutRecordError → Handler
  finish_register username (ok _) = println ("successfully registered as " <> username)
  finish_register username (err error) =
      println
        ("Failed to register username, will try again soon: " <> env.show_put_record_error error)

  -- `std::process::exit(1)`: nothing runs after it.
  unfoldable pub exit_taken : String → Handler
  exit_taken username = do
    eprintln (
        "The username '" <> username
        <> "' is already registered on the network, try using a different one")
    do_act (exited 1)
    panic "exit"

  unfoldable pub register : String → Handler
  unfolding exit_taken finish_register
  register username = do
    peer_id ← Client.get_peer_id env username
    if is_some peer_id
        then exit_taken username
        else (do result ← Client.register_username env username; finish_register username result)

  -- The last two lines of an inbound trade response.
  unfoldable pub print_response : Bool → String → String → String → Handler
  print_response true username offered requested = do
    println (username <> " has accepted your trade for " <> offered <> ".")
    println (requested <> " is now available at the path you specified")
  print_response false username offered requested =
      println (username <> " has declined your trade for " <> offered <> ".")

  unfoldable pub handle_event : Event → Handler
  unfolding print_from register print_response
  handle_event (inbound_trade_offer offered peer_id requested) = do
    println "You have received a trade offer!"
    print_from "From: " "" peer_id
    println ("Receive: " <> offered <> ", Provide: " <> requested)
  handle_event (inbound_trade_response peer_id offered requested was_accepted) = do
    username ← Client.get_username env peer_id
    print_response was_accepted (name_or_error username) offered requested
  handle_event (inbound_direct_message peer_id message) = do
    println "You have received a direct message!"
    print_from "From " ":" peer_id
    println message
  handle_event (inbound_chat peer_id message) = do
    println "Received new global chat!"
    print_from "From " ":" peer_id
    println message
  handle_event (registration_request username) = register username

  unfoldable pub handle_network_event : Option Event → Handler
  unfolding handle_event
  handle_network_event none = panic "Network event sender was dropped!"
  handle_network_event (some event) = handle_event event
