-- ===== src/Interface/Invariants.antt =====
-- The interface's handlers, and what they call, keep what the four operations on a user keep.
use decent_share.Base.{
  String, Bool, true, false, List, [], ◌∷◌, Option, none, some, Result, ok, err, string_eq, ℕ,
  is_some,
}
use decent_share.Base.Exec.Keeps.{Keeps, Keeps-if, Keeps-bind}
use decent_share.Network.Message.{
  FilePath, Error, PublishError, insufficient_peers, message_too_large, other, PutRecordError,
  PeerId, Event, inbound_trade_offer, inbound_trade_response, inbound_direct_message, inbound_chat,
  registration_request,
}
use decent_share.Network.Client.{decline_trade, direct_message}
use decent_share.Network.Client.Invariants.{
  get_peer_id-Keeps, get_username-Keeps, register_username-Keeps, send_message-Keeps,
}
use decent_share.Task.{TaskEnv, TaskAct, TaskWorld}
use decent_share.Task.Invariants.{Frame, task_rules}
use decent_share.Action.{handle_send, handle_trade, handle_accept_trade}
use decent_share.Interface.{
  Handler, or_usage, report, report_send, run_send, run_trade, run_dm, run_accept, run_decline,
  dispatch, run_arguments, handle_std_in, print_sender, print_from, finish_register, exit_taken,
  register, print_response, handle_event, handle_network_event,
}

-- What an invariant has to show beyond its frame: that the four operations on a user keep it that send a
-- command to that user's peer.
pub record Own (env : TaskEnv) (P : TaskWorld → Type 0) : Type 0 where
  pub trade :
      (o : String) (source : FilePath) (username r : String) (path : FilePath)
      → Keeps P (handle_trade env o source username r path)
  pub accept :
      (username o : String) (path : FilePath) (r : String) (source : FilePath)
      → Keeps P (handle_accept_trade env username o path r source)
  pub decline : (username o r : String) → Keeps P (decline_trade env username o r)
  pub message : (username message : String) → Keeps P (direct_message env username message)

module _ {env : TaskEnv} {P : TaskWorld → Type 0} {Free : TaskAct → Type 0}
    (frame : Frame env P Free) (own : Own env P) where
  handle_send-Keeps : (message : String) → Keeps P (handle_send env message)
  unfolding handle_send
  handle_send-Keeps message = send_message-Keeps frame message

  or_usage-Keeps :
      (usage : String) (o : Option String) (rest : String → Handler)
      → ((x : String) → Keeps P (rest x))
      → Keeps P (or_usage usage o rest)
  unfolding or_usage
  or_usage-Keeps usage none rest h = search (task_rules, frame)
  or_usage-Keeps usage (some x) rest h = h x

  report-Keeps : (prefix : String) (r : Result (Unit {0}) Error) → Keeps P (report env prefix r)
  unfolding report
  report-Keeps prefix (ok _) = search task_rules
  report-Keeps prefix (err e) = search (task_rules, frame)

  report_send-Keeps : (r : Result (Unit {0}) PublishError) → Keeps P (report_send env r)
  unfolding report_send
  report_send-Keeps (ok _) = search task_rules
  report_send-Keeps (err insufficient_peers) = search (task_rules, frame)
  report_send-Keeps (err message_too_large) = search (task_rules, frame)
  report_send-Keeps (err (other n)) = search (task_rules, frame)

  print_sender-Keeps :
      (prefix suffix : String) (r : Result String Error)
      → Keeps P (print_sender env prefix suffix r)
  unfolding print_sender
  print_sender-Keeps prefix suffix (ok u) = search (task_rules, frame)
  print_sender-Keeps prefix suffix (err e) = search (task_rules, frame)

  print_from-Keeps :
      (prefix suffix : String) (p : PeerId) → Keeps P (print_from env prefix suffix p)
  unfolding print_from
  print_from-Keeps prefix suffix p =
      Keeps-bind _ _ (get_username-Keeps frame p) (λ r. print_sender-Keeps prefix suffix r)

  run_send-Keeps : (l : List String) → Keeps P (run_send env l)
  unfolding run_send
  run_send-Keeps l = search (task_rules, or_usage-Keeps, handle_send-Keeps, report_send-Keeps)

  run_trade-Keeps : (l : List String) → Keeps P (run_trade env l)
  unfolding run_trade
  run_trade-Keeps l = search (task_rules, or_usage-Keeps, own.trade, report-Keeps) depth 9

  run_dm-Keeps : (l : List String) → Keeps P (run_dm env l)
  unfolding run_dm
  run_dm-Keeps l = search (task_rules, or_usage-Keeps, own.message, report-Keeps)

  run_accept-Keeps : (l : List String) → Keeps P (run_accept env l)
  unfolding run_accept
  run_accept-Keeps l = search (task_rules, or_usage-Keeps, own.accept, report-Keeps) depth 9

  run_decline-Keeps : (l : List String) → Keeps P (run_decline env l)
  unfolding run_decline
  run_decline-Keeps l = search (task_rules, or_usage-Keeps, own.decline, report-Keeps)

  dispatch-Keeps : (action : String) (l : List String) → Keeps P (dispatch env action l)
  unfolding dispatch
  dispatch-Keeps action l =
      search
        (
          task_rules, frame, run_send-Keeps, run_trade-Keeps, run_dm-Keeps, run_accept-Keeps,
          run_decline-Keeps,
        )
        depth 9

  run_arguments-Keeps : (l : List String) → Keeps P (run_arguments env l)
  unfolding run_arguments
  run_arguments-Keeps [] = search (task_rules, frame)
  run_arguments-Keeps (action ∷ l) = dispatch-Keeps (env.to_lowercase action) (action ∷ l)

  pub handle_std_in-Keeps : (r : Result (Option String) ℕ) → Keeps P (handle_std_in env r)
  unfolding handle_std_in
  handle_std_in-Keeps (ok (some command)) = run_arguments-Keeps _
  handle_std_in-Keeps (ok none) = search task_rules
  handle_std_in-Keeps (err e) = search (task_rules, frame)

  finish_register-Keeps :
      (u : String) (r : Result (Unit {0}) PutRecordError) → Keeps P (finish_register env u r)
  unfolding finish_register
  finish_register-Keeps u (ok _) = search (task_rules, frame)
  finish_register-Keeps u (err e) = search (task_rules, frame)

  exit_taken-Keeps : (u : String) → Keeps P (exit_taken env u)
  unfolding exit_taken
  exit_taken-Keeps u = search (task_rules, frame, frame.plain)

  register-Keeps : (u : String) → Keeps P (register env u)
  unfolding register
  register-Keeps u = Keeps-bind _ _ (get_peer_id-Keeps frame u) (λ o.
      Keeps-if (is_some o) _ _ (exit_taken-Keeps u)
        (Keeps-bind _ _ (register_username-Keeps frame u) (λ r. finish_register-Keeps u r)))

  print_response-Keeps : (b : Bool) (u o r : String) → Keeps P (print_response env b u o r)
  unfolding print_response
  print_response-Keeps true u o r = search (task_rules, frame)
  print_response-Keeps false u o r = search (task_rules, frame)

  handle_event-Keeps : (e : Event) → Keeps P (handle_event env e)
  unfolding handle_event
  handle_event-Keeps (inbound_trade_offer o p r) = search (task_rules, frame, print_from-Keeps)
  handle_event-Keeps (inbound_trade_response p o r b) =
      Keeps-bind _ _ (get_username-Keeps frame p) (λ u. print_response-Keeps b _ o r)
  handle_event-Keeps (inbound_direct_message p m) = search (task_rules, frame, print_from-Keeps)
  handle_event-Keeps (inbound_chat p m) = search (task_rules, frame, print_from-Keeps)
  handle_event-Keeps (registration_request u) = register-Keeps u

  pub handle_network_event-Keeps : (e : Option Event) → Keeps P (handle_network_event env e)
  unfolding handle_network_event
  handle_network_event-Keeps none = search task_rules
  handle_network_event-Keeps (some e) = handle_event-Keeps e
