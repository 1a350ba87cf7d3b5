-- ===== src/Task/Invariants.antt =====
-- Invariants of the main task: what a statement about its cache and its trace has to say of the calls
-- that the client, the actions and the interface share, so that they keep it.
use decent_share.Base.{◌≡◌, [], ok, String, Option, none, some, ◌∷◌}
use decent_share.Base.Exec.Keeps.{
  Keeps, Keeps-bind, Keeps-then, Keeps-expect, Keeps-pure, Keeps-panic, keeps_rules,
}
use decent_share.Network.Message.{
  PeerId, Sender, Command, make_trade_offer, respond_trade, direct_message, find_peer_id,
  find_peer_username,
}
use decent_share.Network.UsernameStore.{insert}
use decent_share.Task.{
  TaskEnv, TaskAct, TaskTrace, TaskWorld, commanded, file_written, printed, error_printed, do_act,
  println, eprintln, query, received, send_command, ask,
}

-- The acts that no statement here is about: all but the writing of a file and the commands that name a
-- peer by its username.
abbrev pub IsPlain : TaskAct → Type 0
IsPlain (file_written _ _) = ⊥
IsPlain (commanded (make_trade_offer _ _ _ _ _ _)) = ⊥
IsPlain (commanded (respond_trade _ _ _ _ _)) = ⊥
IsPlain (commanded (direct_message _ _ _)) = ⊥
IsPlain _ = Unit

-- The last command was a search, and its answer says that the peer has the name.
abbrev pub IsAnswer : TaskEnv → String → PeerId → TaskTrace → Type 0
IsAnswer env u p [] = ⊥
IsAnswer env u p (commanded (find_peer_id v c) ∷ t) =
    (v ≡ u) × (env.peer_id (commanded (find_peer_id v c) ∷ t) ≡ some (some p))
IsAnswer env u p (commanded (find_peer_username q c) ∷ t) =
    (q ≡ p) × (env.username (commanded (find_peer_username q c) ∷ t) ≡ some (ok u))
IsAnswer env u p (_ ∷ t) = ⊥

-- An act that is `Free` keeps `P`, and so does the caching of a name that was just found.
pub record Frame (env : TaskEnv) (P : TaskWorld → Type 0) (Free : TaskAct → Type 0) : Type 0 where
  pub plain : (a : TaskAct) → IsPlain a → Free a
  pub logged : (a : TaskAct) (w : TaskWorld) → Free a → P w → P (record w { trace = a ∷ w.trace })
  pub cached :
      (u : String) (p : PeerId) (w : TaskWorld)
      → IsAnswer env u p w.trace
      → P w
      → P (record w { username_store = insert w.username_store u p })

module _ {P : TaskWorld → Type 0} where
  pub query-Keeps : {A : Type 0} (f : TaskTrace → A) → Keeps P (query f)
  unfolding query
  query-Keeps f = record { at = λ w h. h }

  pub received-Keeps : {A : Type 0} (message : String) (o : Option A) → Keeps P (received message o)
  unfolding received
  received-Keeps message none = Keeps-panic message
  received-Keeps message (some a) = Keeps-pure a

module _ {env : TaskEnv} {P : TaskWorld → Type 0} {Free : TaskAct → Type 0}
    (frame : Frame env P Free) where
  pub do_act-Keeps : (a : TaskAct) → Free a → Keeps P (do_act a)
  unfolding do_act
  do_act-Keeps a free = record { at = λ w h. frame.logged a w free h }

  pub println-Keeps : (line : String) → Keeps P (println line)
  unfolding println
  println-Keeps line = do_act-Keeps (printed line) (frame.plain _ tt)

  pub eprintln-Keeps : (line : String) → Keeps P (eprintln line)
  unfolding eprintln
  eprintln-Keeps line = do_act-Keeps (error_printed line) (frame.plain _ tt)

  pub send_command-Keeps : (c : Command) → Free (commanded c) → Keeps P (send_command env c)
  unfolding send_command
  send_command-Keeps c free = search (keeps_rules, query-Keeps, do_act-Keeps)

  pub ask-Keeps :
      {A : Type 0} (command : Sender → Command) (answer : TaskTrace → Option A) (message : String)
      → ((c : Sender) → Free (commanded (command c)))
      → Keeps P (ask env command answer message)
  unfolding ask
  ask-Keeps command answer message free =
      search (keeps_rules, query-Keeps, send_command-Keeps, received-Keeps)

pub ruleset task_rules = (
  keeps_rules, query-Keeps, received-Keeps, do_act-Keeps, println-Keeps, eprintln-Keeps,
  send_command-Keeps, ask-Keeps, tt,
)
