-- ===== src/Main/Addressees.antt =====
-- The peers to which the main task sends offers, responses and direct messages, over whole runs.
use decent_share.Base.{◌≡◌, refl, inr, String, Option, none, some, Result, List, [], ◌∷◌}
use decent_share.Base.Exec.{Outcome, returned, panicked, continue, pure, ◌>>=◌}
use decent_share.Base.Exec.Keeps.{Keeps, Keeps-bind}
use decent_share.Network.Message.{
  PeerId, Bytes, FilePath, Error, make_trade_offer, respond_trade, direct_message,
}
use decent_share.Network.UsernameStore
use decent_share.Network.Client
use decent_share.Network.Client.{
  get_peer_id, or_bail, with_peer, offer_trade, accept_trade, decline_trade,
}
use decent_share.Network.Client.Cache.{get_peer_id-cached}
use decent_share.Network.Client.Invariants.{get_peer_id-Keeps}
use decent_share.Task.{Task, TaskEnv, TaskAct, TaskTrace, TaskWorld, commanded}
use decent_share.Task.Invariants.{Frame, IsPlain, task_rules, ask-Keeps, send_command-Keeps}
use decent_share.Action.{handle_trade, handle_accept_trade, store_received}
use decent_share.Action.Invariants.{or_io_error-Keeps, or_return-Keeps, store_received-Keeps}
use decent_share.Interface.Invariants.{Own}
use decent_share.Main.{Wake, run}
use decent_share.Main.Cache.{WasAnswered, IsLearned, learned, empty-IsLearned}
use decent_share.Main.Invariants.{run-Keeps}

module _ (env : TaskEnv) where
  -- The peer of an offer, of a response or of a direct message was found by a search.
  abbrev pub IsAddressed : TaskTrace → TaskAct → Type 0
  IsAddressed t (commanded (make_trade_offer o b p r path c)) = (u : String) × WasAnswered env u p t
  IsAddressed t (commanded (respond_trade p r o file c)) = (u : String) × WasAnswered env u p t
  IsAddressed t (commanded (direct_message p m c)) = (u : String) × WasAnswered env u p t
  IsAddressed t _ = Unit

  abbrev pub AllAddressed : TaskTrace → Type 0
  AllAddressed [] = Unit
  AllAddressed (a ∷ t) = IsAddressed t a × AllAddressed t

  abbrev IsFree : TaskAct → Type 0
  IsFree a = (t : TaskTrace) → IsAddressed t a

  plain-IsFree : (a : TaskAct) → IsPlain a → IsFree a
  plain-IsFree (commanded (make_trade_offer o b p r path c)) h t = absurd h
  plain-IsFree (commanded (respond_trade p r o file c)) h t = absurd h
  plain-IsFree (commanded (direct_message p m c)) h t = absurd h
  plain-IsFree _ h t = tt

  abbrev IsAddressedWorld : TaskWorld → Type 0
  IsAddressedWorld w = IsLearned env w × AllAddressed w.trace

  addressed : Frame env IsAddressedWorld IsFree
  addressed = record {
    plain = plain-IsFree;
    logged = λ a w free h. ((learned env).logged a w tt h.0, (free w.trace, h.1));
    cached = λ u p w k h. ((learned env).cached u p w k h.0, h.1);
  }

  -- After a search for `u` that found `p`.
  module _ (u : String) (p : PeerId) where
    abbrev IsFound : TaskWorld → Type 0
    IsFound w = IsAddressedWorld w × WasAnswered env u p w.trace

    found : Frame env IsFound (λ a. (t : TaskTrace) → WasAnswered env u p t → IsAddressed t a)
    found = record {
      plain = λ a h t k. plain-IsFree a h t;
      logged =
          λ a w free h. (((learned env).logged a w tt h.0.0, (free w.trace h.1, h.0.1)), inr h.1);
      cached = λ v q w k h. (((learned env).cached v q w k h.0.0, h.0.1), h.1);
    }

  or_bail-Keeps :
      {A : Type 0} (u : String) (error : Error) (rest : PeerId → Task (Result A Error))
      (o : Option PeerId) (w : TaskWorld)
      → IsAddressedWorld w
      → ((p : PeerId) → o ≡ some p → UsernameStore.get_peer_id w.username_store u ≡ some p)
      → ((p : PeerId) → Keeps (IsFound u p) (rest p))
      → IsAddressedWorld (or_bail env error o rest w).1
  unfolding or_bail pure
  or_bail-Keeps u error rest none w h known k = h
  or_bail-Keeps u error rest (some p) w h known k = ((k p).at w (h, h.0.0 u p (known p refl))).0

  searched :
      {A : Type 0} (u : String) (error : Error) (rest : PeerId → Task (Result A Error))
      (r : Outcome (Option PeerId)) (w w' : TaskWorld)
      → get_peer_id env u w ≡ (r, w')
      → IsAddressedWorld w'
      → ((p : PeerId) → Keeps (IsFound u p) (rest p))
      → IsAddressedWorld (continue r (λ o. or_bail env error o rest) w').1
  searched u error rest (panicked m) w w' e h k = h
  searched u error rest (returned o) w w' e h k =
      or_bail-Keeps u error rest o w' h (λ p f. get_peer_id-cached env u p w w' (rw f at e)) k

  with_peer-Keeps :
      {A : Type 0} (u : String) (error : Error) (rest : PeerId → Task (Result A Error))
      → ((p : PeerId) → Keeps (IsFound u p) (rest p))
      → Keeps IsAddressedWorld (with_peer env u error rest)
  unfolding with_peer ◌>>=◌
  with_peer-Keeps u error rest k = record {
    at = λ w h.
        searched u error rest (get_peer_id env u w).0 w (get_peer_id env u w).1 refl
          ((get_peer_id-Keeps addressed u).at w h) k;
  }

  offer_trade-Keeps :
      (o : String) (b : Bytes) (u r : String) (path : FilePath)
      → Keeps IsAddressedWorld (offer_trade env o b u r path)
  unfolding offer_trade
  offer_trade-Keeps o b u r path =
      with_peer-Keeps u _ _ (λ p. ask-Keeps (found u p) _ _ _ (λ c t k. (u, k)))

  accept_trade-Keeps :
      (u r o : String) (b : Bytes) → Keeps IsAddressedWorld (accept_trade env u r o b)
  unfolding accept_trade
  accept_trade-Keeps u r o b = with_peer-Keeps u _ _ (λ p.
      Keeps-bind _ _ (ask-Keeps (found u p) _ _ _ (λ c t k. (u, k))) (λ answer. search task_rules))

  decline_trade-Keeps : (u o r : String) → Keeps IsAddressedWorld (decline_trade env u o r)
  unfolding decline_trade
  decline_trade-Keeps u o r = with_peer-Keeps u _ _ (λ p.
      Keeps-bind _ _ (send_command-Keeps (found u p) _ (λ t k. (u, k))) (λ _. search task_rules))

  direct_message-Keeps :
      (u message : String) → Keeps IsAddressedWorld (Client.direct_message env u message)
  unfolding Client.direct_message
  direct_message-Keeps u message =
      with_peer-Keeps u _ _ (λ p. ask-Keeps (found u p) _ _ _ (λ c t k. (u, k)))

  handle_trade-Keeps :
      (o : String) (source : FilePath) (u r : String) (path : FilePath)
      → Keeps IsAddressedWorld (handle_trade env o source u r path)
  unfolding handle_trade
  handle_trade-Keeps o source u r path =
      search (task_rules, offer_trade-Keeps, or_io_error-Keeps) depth 9

  handle_accept_trade-Keeps :
      (u o : String) (path : FilePath) (r : String) (source : FilePath)
      → Keeps IsAddressedWorld (handle_accept_trade env u o path r source)
  unfolding handle_accept_trade
  handle_accept_trade-Keeps u o path r source =
      let stored : (b : Bytes) → Keeps IsAddressedWorld (store_received env u o path b) =
        λ b. store_received-Keeps addressed u o path b (λ t. tt) in
      search (task_rules, accept_trade-Keeps, or_io_error-Keeps, or_return-Keeps, stored) depth 12

  own : Own env IsAddressedWorld
  own = record {
    trade = handle_trade-Keeps;
    accept = handle_accept_trade-Keeps;
    decline = decline_trade-Keeps;
    message = direct_message-Keeps;
  }

  -- From the empty cache on, and whatever the user types and the network reports, in any order: each offer,
  -- response and direct message that the main task hands to the event loop names a peer that at some point
  -- before was the answer to a search for a name, or to a search for the name of that peer. This holds
  -- also where the task panics or exits.
  pub run-AllAddressed :
      (wakes : List Wake)
      → AllAddressed
          (run env wakes (record { username_store = UsernameStore.default; trace = [] })).1.trace
  run-AllAddressed wakes = ((run-Keeps addressed own wakes).at _ (empty-IsLearned env, tt)).1
