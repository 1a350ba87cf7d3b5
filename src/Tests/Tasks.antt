-- ===== src/Tests/Tasks.antt =====
-- The main task's theorems, for a task whose event loop finds `bob` to be peer 2 and nobody else, and
-- in whose directory only `cat.png` and `dog.png` stand.
use decent_share.Base.{
  ◌≡◌, refl, List, [], ◌∷◌, Option, none, some, ok, err, ◌==◌, string_eq, true, if◌then◌else◌,
  arith,
}
use decent_share.Base.Dict
use decent_share.Base.Exec.{returned, ◌>>=◌}
use decent_share.Network.Message.{respond_trade, PeerId, not_a_file, file_exists, find_peer_id}
use decent_share.Network.UsernameStore
use decent_share.Network.Client.{
  get_username, get_peer_id, accept_trade, find_user, or_find_user, remember_peer_id, with_peer,
  or_bail,
}
use decent_share.Network.Client.Cache.{found-get_username, get_peer_id_twice}
use decent_share.Task.{
  TaskEnv, TaskTrace, TaskWorld, commanded, printed, file_written, println, ask, send_command,
  query, do_act, received,
}
use decent_share.Action.{handle_trade, handle_accept_trade}
use decent_share.Action.Guards.{handle_trade_lem, handle_accept_trade_guarded}
use decent_share.Action.Acceptance.{handle_accept_trade_stores}
use decent_share.Action.Careful.{AllCareful}
use decent_share.Main.{Wake, line, notified, run}
use decent_share.Main.Careful.{run-AllCareful}
use decent_share.Main.Addressees.{AllAddressed, run-AllAddressed}
use decent_share.Main.Cache.{IsLearned, run-IsLearned}
use decent_share.Interface.{dispatch}
use decent_share.Interface.Usage.{trade_usage}
use decent_share.Interface.Parsing.{dispatch_short}

abbrev found : TaskTrace → Option PeerId
found (commanded (find_peer_id name _) ∷ t) = if name == "bob" then some 2 else none
found _ = none

abbrev env : TaskEnv
env = record {
  new_channel = λ t. 0;
  accepts = λ t c. true;
  status = λ t. some (ok tt);
  peer_id = λ t. some (found t);
  username = λ t. some (ok "bob");
  delivery = λ t. some (ok tt);
  bytes = λ t. some (ok none);
  publication = λ t. some (ok tt);
  is_file = λ t path. if path == "cat.png" then true else path == "dog.png";
  exists = λ t path. if path == "cat.png" then true else path == "dog.png";
  read = λ t path. ok (7 ∷ []);
  create_dir_all = λ t path. true;
  write = λ t path bytes. ok tt;
  parent = λ path. none;
  to_lowercase = λ s. if s == "SEND" then "send" else s;
  matches = λ s. s ∷ [];
  show_error = λ e. "error";
  error_to_string = λ e. "error";
  show_publish_error = λ e. "error";
  show_put_record_error = λ e. "error";
  show_io_error = λ e. "error";
}

abbrev idle : TaskWorld
idle = record { username_store = UsernameStore.default; trace = [] }

abbrev met : TaskWorld
met = record {
  username_store = UsernameStore.insert UsernameStore.default "bob" 2;
  trace = commanded (find_peer_id "bob" 0) ∷ [];
}

search_bob : get_peer_id env "bob" idle ≡ (returned (some 2), met)
unfolding get_peer_id ◌>>=◌ UsernameStore.get_peer_id Dict.get Dict.empty UsernameStore.default
    or_find_user find_user ask query send_command do_act received remember_peer_id
search_bob = refl

get_peer_id_twice_example : get_peer_id env "bob" met ≡ (returned (some 2), met)
get_peer_id_twice_example = get_peer_id_twice env "bob" 2 idle met search_bob

bob_missing : UsernameStore.get_peer_id idle.username_store "bob" ≡ none
unfolding UsernameStore.get_peer_id UsernameStore.default
bob_missing = Dict.get-empty "bob"

found-get_username_example : get_username env 2 met ≡ (returned (ok "bob"), met)
found-get_username_example = found-get_username env "bob" 2 idle met bob_missing search_bob

abbrev searched : TaskWorld
searched = record {
  username_store = UsernameStore.default;
  trace = commanded (find_peer_id "carol" 0) ∷ [];
}

search_carol : get_peer_id env "carol" idle ≡ (returned none, searched)
unfolding get_peer_id ◌>>=◌ UsernameStore.get_peer_id Dict.get Dict.empty UsernameStore.default
    or_find_user find_user ask query send_command do_act received remember_peer_id
search_carol = refl

handle_trade_lem_example :
    handle_trade env "cat" "cat.png" "bob" "dog" "dog.png" idle
    ≡ (returned (err (file_exists "dog.png")), idle)
handle_trade_lem_example = handle_trade_lem env idle "cat" "cat.png" "bob" "dog" "dog.png"

handle_accept_trade_guarded_example :
    handle_accept_trade env "bob" "cat" "new.png" "dog" "lost.png" idle
    ≡ (returned (err (not_a_file "lost.png")), idle)
handle_accept_trade_guarded_example =
    handle_accept_trade_guarded env idle "bob" "cat" "new.png" "dog" "lost.png"
      (not_a_file "lost.png") refl

dispatch_short_example :
    dispatch env "trade" ("trade" ∷ "cat" ∷ "cat.png" ∷ []) idle ≡ println trade_usage idle
dispatch_short_example =
    dispatch_short env "trade" ("trade" ∷ "cat" ∷ "cat.png" ∷ []) idle (omega arith)

-- Bob is known, and delivers the byte 9 for the dog.
abbrev delivering : TaskEnv
delivering = record env { bytes = λ t. some (ok (some (9 ∷ []))) }

abbrev accepted : TaskWorld
accepted = record met {
  trace =
      commanded (respond_trade 2 "dog" "cat" (some (7 ∷ [])) (some 0))
      ∷ commanded (find_peer_id "bob" 0)
      ∷ [];
}

accept_bob :
    accept_trade delivering "bob" "dog" "cat" (7 ∷ []) idle ≡ (returned (ok (9 ∷ [])), accepted)
unfolding accept_trade with_peer or_bail get_peer_id ◌>>=◌ UsernameStore.get_peer_id Dict.get
    Dict.empty UsernameStore.default or_find_user find_user ask query send_command do_act received
    remember_peer_id
accept_bob = refl

handle_accept_trade_stores_example :
    handle_accept_trade delivering "bob" "cat" "new.png" "dog" "dog.png" idle ≡ (
      returned (ok tt),
      record accepted {
        trace =
            printed "bob's 'cat' file is now available at 'new.png'"
            ∷ file_written "new.png" (9 ∷ [])
            ∷ accepted.trace;
      },
    )
handle_accept_trade_stores_example =
    handle_accept_trade_stores delivering (λ t p. refl) (λ t p b. refl) "bob" "cat" "new.png" "dog"
      "dog.png" (7 ∷ []) (9 ∷ []) idle accepted refl refl refl accept_bob

-- Two times the user accepts Bob's cat for the dog, then the event loop is gone.
abbrev pub accepting : TaskEnv
accepting = record delivering {
  matches = λ s. "accept" ∷ "bob" ∷ "cat" ∷ "new.png" ∷ "dog" ∷ "dog.png" ∷ [];
}

abbrev pub evening : List Wake
evening = line (ok (some "accept …")) ∷ line (ok (some "accept …")) ∷ notified none ∷ []

run-AllCareful_example :
    AllCareful accepting
      (run accepting evening
        (record { username_store = UsernameStore.default; trace = [] })).1.trace
run-AllCareful_example = run-AllCareful accepting UsernameStore.default evening

run-IsLearned_example :
    IsLearned accepting
      (run accepting evening (record { username_store = UsernameStore.default; trace = [] })).1
run-IsLearned_example = run-IsLearned accepting evening

run-AllAddressed_example :
    AllAddressed accepting
      (run accepting evening
        (record { username_store = UsernameStore.default; trace = [] })).1.trace
run-AllAddressed_example = run-AllAddressed accepting evening
