-- ===== src/Main/Files.antt =====
-- The two tasks together: from the files that the main task reads to the bytes that the event loop sends.
use decent_share.Base.{◌≡◌, ◌⊎◌, inl, inr, subst, String, List, [], ◌∷◌, Option, none, some}
use decent_share.Network.Message.{PeerId, Bytes, FilePath, Command, make_trade_offer, respond_trade}
use decent_share.Network.UsernameStore.{UsernameStore}
use decent_share.Network.EventLoop.Env.{Env}
use decent_share.Network.EventLoop.State
use decent_share.Network.EventLoop.State.{start}
use decent_share.Network.EventLoop.Run
use decent_share.Network.EventLoop.Run.{Input}
use decent_share.Network.EventLoop.Invariants.Steps.{Each}
use decent_share.Network.EventLoop.Traces.{Every}
use decent_share.Network.EventLoop.Trades.Sources.{IsHandedOver, IsSourced, run-IsSourced}
use decent_share.Task.{TaskEnv, TaskAct, TaskTrace, commanded}
use decent_share.Action.Careful.{WasRead, IsCareful, AllCareful}
use decent_share.Main
use decent_share.Main.{Wake}
use decent_share.Main.Careful.{run-AllCareful}

-- The main task has sent the command.
abbrev pub WasCommanded : Command → TaskTrace → Type 0
WasCommanded c [] = ⊥
WasCommanded c (commanded d ∷ t) = (d ≡ c) ⊎ WasCommanded c t
WasCommanded c (_ ∷ t) = WasCommanded c t

-- The channel makes no commands up.
abbrev pub IsFrom : TaskTrace → Input → Type 0
IsFrom t (Run.command c) = WasCommanded c t
IsFrom t _ = Unit

module _ (env : TaskEnv) where
  -- The bytes are those of a file that was read at some point of the trace.
  abbrev pub IsRead : TaskTrace → Bytes → Type 0
  IsRead t b = (source : FilePath) × WasRead env source b t

  later :
      (a : TaskAct) (t : TaskTrace) (i : Input)
      → IsHandedOver (IsRead t) i
      → IsHandedOver (IsRead (a ∷ t)) i
  later a t (Run.command (make_trade_offer o b p r path c)) (source, h) = (source, inr h)
  later a t (Run.command (respond_trade p r o (some b) c)) (source, h) = (source, inr h)
  later a t (Run.command (respond_trade p r o none c)) h = tt
  later a t _ h = tt

  careful_now :
      (t : TaskTrace) (c : Command)
      → IsCareful env t (commanded c)
      → IsHandedOver (IsRead t) (Run.command c)
  careful_now t (make_trade_offer o b p r path c) h = h.0
  careful_now t (respond_trade p r o (some b) c) h = h
  careful_now t (respond_trade p r o none c) h = tt
  careful_now t _ h = tt

  commanded-IsHandedOver :
      (t : TaskTrace) (c : Command)
      → AllCareful env t
      → WasCommanded c t
      → IsHandedOver (IsRead t) (Run.command c)
  commanded-IsHandedOver [] c h k = absurd k
  commanded-IsHandedOver (commanded d ∷ t) c (now, h) (inl e) =
      later (commanded d) t (Run.command c)
        (subst (λ x. IsHandedOver (IsRead t) (Run.command x)) e (careful_now t d now))
  commanded-IsHandedOver (commanded d ∷ t) c (now, h) (inr k) =
      later (commanded d) t (Run.command c) (commanded-IsHandedOver t c h k)
  commanded-IsHandedOver (a ∷ t) c (now, h) k =
      later a t (Run.command c) (commanded-IsHandedOver t c h k)

  all-IsHandedOver :
      (t : TaskTrace) (inputs : List Input)
      → AllCareful env t
      → Each (IsFrom t) inputs
      → Each (IsHandedOver (IsRead t)) inputs
  all-IsHandedOver t [] h k = tt
  all-IsHandedOver t (Run.command c ∷ is) h (k, ks) =
      (commanded-IsHandedOver t c h k, all-IsHandedOver t is h ks)
  all-IsHandedOver t (_ ∷ is) h (k, ks) = (tt, all-IsHandedOver t is h ks)

  -- If the event loop takes only commands that the main task has sent, then all bytes that leave for
  -- another peer, in a response or in an answer to one, were read from a file by the main task, whatever
  -- the user types and the swarm reports, in any order.
  pub run-IsRead :
      (swarm : Env) (username : String) (rendezvous_peer_id : Option PeerId) (store : UsernameStore)
      (inputs : List Input) (wakes : List Wake)
      → let t = (Main.run env wakes (record { username_store = store; trace = [] })).1.trace in
        Each (IsFrom t) inputs
        → Every
            (IsSourced (IsRead t))
            (Run.run swarm inputs (start (State.new username rendezvous_peer_id))).1.trace
  run-IsRead swarm username rendezvous_peer_id store inputs wakes k =
      run-IsSourced (IsRead _) swarm username rendezvous_peer_id inputs
        (all-IsHandedOver _ inputs (run-AllCareful env store wakes) k)
