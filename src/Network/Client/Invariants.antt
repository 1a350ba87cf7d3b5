-- ===== src/Network/Client/Invariants.antt =====
-- The client's functions keep what its cache and the trace satisfy, if the commands they send do.
use decent_share.Base.{
  ◌≡◌, refl, ◌∷◌, Bool-cases, inl, inr, String, Option, none, some, Result, ok, err,
}
use decent_share.Base.Exec.{◌>>=◌, expect, pure, panic}
use decent_share.Base.Exec.Keeps.{Keeps, Keeps-bind}
use decent_share.Network.Message.{
  PeerId, Bytes, FilePath, Error, Sender, make_trade_offer, respond_trade, find_peer_id,
  find_peer_username as to_find_peer_username, direct_message as to_direct_message,
}
use decent_share.Network.Client.{
  cached_peer_id, cached_username, remember_peer_id, remember_username, find_user,
  find_peer_username, or_find_user, get_peer_id, or_find_username, get_username, or_bail, with_peer,
  offer_trade, accept_trade, decline_trade, register_username, send_message, direct_message,
}
use decent_share.Task.{
  ask, send_command, query, do_act, received, Task, TaskEnv, TaskAct, TaskWorld, commanded,
}
use decent_share.Task.Invariants.{Frame, task_rules, ask-Keeps}

module _ {env : TaskEnv} {P : TaskWorld → Type 0} {Free : TaskAct → Type 0}
    (frame : Frame env P Free) where
  cached_peer_id-Keeps : (username : String) → Keeps P (cached_peer_id username)
  cached_peer_id-Keeps username = record { at = λ w h. h }

  cached_username-Keeps : (peer_id : PeerId) → Keeps P (cached_username peer_id)
  cached_username-Keeps peer_id = record { at = λ w h. h }

  find_user-Keeps : (username : String) → Keeps P (find_user env username)
  unfolding find_user ask send_command query do_act expect received remember_peer_id pure panic
      ◌>>=◌
  find_user-Keeps username = record {
    at = λ w h.
        elim (Bool-cases (env.accepts w.trace (find_peer_id username (env.new_channel w.trace)))) [
          | inr e ↦ rw e h
          | inl e ↦ rw e (found w h (env.peer_id (asked w).trace) refl)
        ];
  }
    where
      asked : TaskWorld → TaskWorld
      asked w = record w {
        trace = commanded (find_peer_id username (env.new_channel w.trace)) ∷ w.trace;
      }

      found :
          (w : TaskWorld)
          → P w
          → (o : Option (Option PeerId)) → env.peer_id (asked w).trace ≡ o
          → P
              ((received "Peer ID sender not be dropped." o >>= λ r. remember_peer_id username r)
                (asked w)).1
      found w h none e = frame.logged _ w (frame.plain _ tt) h
      found w h (some none) e = frame.logged _ w (frame.plain _ tt) h
      found w h (some (some p)) e =
          frame.cached username p (asked w) (refl, e) (frame.logged _ w (frame.plain _ tt) h)

  find_peer_username-Keeps : (p : PeerId) → Keeps P (find_peer_username env p)
  unfolding find_peer_username ask send_command query do_act expect received remember_username pure
      panic ◌>>=◌
  find_peer_username-Keeps p = record {
    at = λ w h.
        elim (Bool-cases
          (env.accepts w.trace (to_find_peer_username p (env.new_channel w.trace)))) [
            | inr e ↦ rw e h
            | inl e ↦ rw e (found w h (env.username (asked w).trace) refl)
          ];
  }
    where
      asked : TaskWorld → TaskWorld
      asked w = record w {
        trace = commanded (to_find_peer_username p (env.new_channel w.trace)) ∷ w.trace;
      }

      found :
          (w : TaskWorld)
          → P w
          → (o : Option (Result String Error)) → env.username (asked w).trace ≡ o
          → P
              ((received "Username sender was dropped" o >>= λ r. remember_username p r)
                (asked w)).1
      found w h none e = frame.logged _ w (frame.plain _ tt) h
      found w h (some (err x)) e = frame.logged _ w (frame.plain _ tt) h
      found w h (some (ok u)) e =
          frame.cached u p (asked w) (refl, e) (frame.logged _ w (frame.plain _ tt) h)

  or_find_user-Keeps :
      (username : String) (o : Option PeerId) → Keeps P (or_find_user env username o)
  unfolding or_find_user
  or_find_user-Keeps username none = find_user-Keeps username
  or_find_user-Keeps username (some p) = search task_rules

  or_find_username-Keeps : (p : PeerId) (o : Option String) → Keeps P (or_find_username env p o)
  unfolding or_find_username
  or_find_username-Keeps p none = find_peer_username-Keeps p
  or_find_username-Keeps p (some username) = search task_rules

  pub get_peer_id-Keeps : (username : String) → Keeps P (get_peer_id env username)
  unfolding get_peer_id
  get_peer_id-Keeps username = search (task_rules, cached_peer_id-Keeps, or_find_user-Keeps)

  pub get_username-Keeps : (p : PeerId) → Keeps P (get_username env p)
  unfolding get_username
  get_username-Keeps p = search (task_rules, cached_username-Keeps, or_find_username-Keeps)

  or_bail-Keeps :
      {A : Type 0} (error : Error) (o : Option PeerId) (rest : PeerId → Task (Result A Error))
      → ((p : PeerId) → Keeps P (rest p))
      → Keeps P (or_bail env error o rest)
  unfolding or_bail
  or_bail-Keeps error none rest h = search task_rules
  or_bail-Keeps error (some p) rest h = h p

  with_peer-Keeps :
      {A : Type 0} (username : String) (error : Error) (rest : PeerId → Task (Result A Error))
      → ((p : PeerId) → Keeps P (rest p))
      → Keeps P (with_peer env username error rest)
  unfolding with_peer
  with_peer-Keeps username error rest h =
      Keeps-bind _ _ (get_peer_id-Keeps username) (λ o. or_bail-Keeps error o rest h)

  pub offer_trade-Keeps :
      (o : String) (b : Bytes) (username r : String) (path : FilePath)
      → ((p : PeerId) (c : Sender) → Free (commanded (make_trade_offer o b p r path c)))
      → Keeps P (offer_trade env o b username r path)
  unfolding offer_trade
  offer_trade-Keeps o b username r path free =
      with_peer-Keeps username _ _ (λ p. ask-Keeps frame _ _ _ (free p))

  pub accept_trade-Keeps :
      (username r o : String) (b : Bytes)
      → ((p : PeerId) (c : Sender) → Free (commanded (respond_trade p r o (some b) (some c))))
      → Keeps P (accept_trade env username r o b)
  unfolding accept_trade
  accept_trade-Keeps username r o b free =
      with_peer-Keeps username _ _
        (λ p. Keeps-bind _ _ (ask-Keeps frame _ _ _ (free p)) (λ answer. search task_rules))

  pub decline_trade-Keeps :
      (username o r : String)
      → ((p : PeerId) → Free (commanded (respond_trade p r o none none)))
      → Keeps P (decline_trade env username o r)
  unfolding decline_trade
  decline_trade-Keeps username o r free =
      with_peer-Keeps username _ _ (λ p. search (task_rules, free))

  pub register_username-Keeps : (username : String) → Keeps P (register_username env username)
  unfolding register_username
  register_username-Keeps username = search (task_rules, frame.plain)

  pub send_message-Keeps : (message : String) → Keeps P (send_message env message)
  unfolding send_message
  send_message-Keeps message = search (task_rules, frame.plain)

  pub direct_message-Keeps :
      (username message : String)
      → ((p : PeerId) (c : Sender) → Free (commanded (to_direct_message p message c)))
      → Keeps P (direct_message env username message)
  unfolding direct_message
  direct_message-Keeps username message free =
      with_peer-Keeps username _ _ (λ p. ask-Keeps frame _ _ _ (free p))
