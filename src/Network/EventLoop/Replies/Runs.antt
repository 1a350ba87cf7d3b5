-- ===== src/Network/EventLoop/Replies/Runs.antt =====
-- The senders of the tables over the runs of the event loop.
use decent_share.Base.{◌≡◌, refl, sym, subst, ap, ◌∙◌, ◌⊎◌, inl, inr, List, [], ◌∷◌, some}
use decent_share.Base.Exec.{Exec, Outcome, returned, panicked, ◌>>=◌, ◌>>◌, continue}
use decent_share.Base.Exec.Keeps.{keeps_rules, Keeps-then}
use decent_share.Network.Message.{Sender, Command}
use decent_share.Network.EventLoop.Env.{Env, Trace}
use decent_share.Network.EventLoop.State.{World}
use decent_share.Network.EventLoop.Run.{Input, event, command, tick, commands_closed, step, run}
use decent_share.Network.EventLoop.Replies.{IsFresh, IsHeld, AnsweredOr, IsTracked, command_sender}
use decent_share.Network.EventLoop.Replies.Handlers.{Holding}
use decent_share.Network.EventLoop.Replies.Own.{handle_command-IsHeld}
use decent_share.Network.EventLoop.Replies.Steps.{step-Holding}

-- The sender came with a command that the loop took, before the command channel was closed.
abbrev pub IsAsked : Sender → List Input → Type 0
IsAsked c [] = ⊥
IsAsked c (commands_closed ∷ inputs) = ⊥
IsAsked c (command k ∷ inputs) = (command_sender k ≡ some c) ⊎ IsAsked c inputs
IsAsked c (_ ∷ inputs) = IsAsked c inputs

continue-returned :
    {S : Type 0} (r : Outcome (Unit {0})) (n : Exec S (Unit {0})) (s : S)
    → (continue r (λ _. n) s).0 ≡ returned tt
    → (r ≡ returned tt) × (continue r (λ _. n) s ≡ n s)
continue-returned (returned tt) n s h = (refl, refl)
continue-returned (panicked message) n s h = cc

-- If a sequence returns, so does its first part, and the rest goes on from there.
then-returned :
    {S : Type 0} (m n : Exec S (Unit {0})) (s : S)
    → ((m >> n) s).0 ≡ returned tt
    → ((m s).0 ≡ returned tt) × ((m >> n) s ≡ n (m s).1)
unfolding ◌>>=◌
then-returned m n s h = continue-returned (m s).0 n (m s).1 h

anything : (c : Sender) (t : Trace) → AnsweredOr (Unit {0}) c t
anything c [] = tt
anything c (a ∷ t) = inr (anything c t)

module _ (env : Env) (fresh : IsFresh env) where
  run-Holding : (Z : Type 0) (c : Sender) (inputs : List Input) → Holding Z env c (run env inputs)
  unfolding run
  run-Holding Z c [] = search keeps_rules
  run-Holding Z c (commands_closed ∷ is) = search keeps_rules
  run-Holding Z c (event e ∷ is) =
      Keeps-then _ _ (step-Holding Z env c fresh (event e)) (run-Holding Z c is)
  run-Holding Z c (command k ∷ is) =
      Keeps-then _ _ (step-Holding Z env c fresh (command k)) (run-Holding Z c is)
  run-Holding Z c (tick ∷ is) =
      Keeps-then _ _ (step-Holding Z env c fresh tick) (run-Holding Z c is)

  step-IsTracked : (i : Input) (w : World) → IsTracked w → IsTracked (step env i w).1
  step-IsTracked i w tracked =
      ((step-Holding (Unit {0}) env 0 fresh i).at w (tracked, inr (anything 0 w.trace))).0

  asked_first :
      (c : Sender) (k : Command) (is : List Input) (w : World)
      → IsTracked w
      → command_sender k ≡ some c
      → ((step env (command k) >> run env is) w).0 ≡ returned tt
      → IsHeld c ((step env (command k) >> run env is) w).1
  unfolding step
  asked_first c k is w tracked e h =
      let (first, whole) = then-returned (step env (command k)) (run env is) w h in
      subst (λ r. IsHeld c r.1) (sym whole)
        (((run-Holding ⊥ c is).at _ (
          step-IsTracked (command k) w tracked,
          handle_command-IsHeld ⊥ env c fresh k w e tracked first,
        )).1)

  asked_later :
      (c : Sender) (i : Input) (is : List Input) (w : World)
      → ((step env i w).0 ≡ returned tt
          → (run env is (step env i w).1).0 ≡ returned tt
          → IsHeld c (run env is (step env i w).1).1)
      → ((step env i >> run env is) w).0 ≡ returned tt
      → IsHeld c ((step env i >> run env is) w).1
  asked_later c i is w go_on h =
      let (first, whole) = then-returned (step env i) (run env is) w h in
      subst (λ r. IsHeld c r.1) (sym whole) (go_on first (sym (ap (λ r. r.0) whole) ∙ h))

  -- If no handler panics, then every sender that came with a command is accounted for at the end of
  -- the run: it waits in one of the six tables, or an answer was sent on it. This holds from any
  -- state in which the identifiers of the tables were given by the swarm, for a swarm that never
  -- gives an identifier twice, and for all commands, events and answers of the surroundings.
  pub run-IsHeld :
      (c : Sender) (inputs : List Input) (w : World)
      → IsTracked w
      → IsAsked c inputs
      → (run env inputs w).0 ≡ returned tt
      → IsHeld c (run env inputs w).1
  unfolding run
  run-IsHeld c [] w tracked asked h = absurd asked
  run-IsHeld c (commands_closed ∷ is) w tracked asked h = absurd asked
  run-IsHeld c (event e ∷ is) w tracked asked h =
      asked_later c (event e) is w
        (λ _. run-IsHeld c is _ (step-IsTracked (event e) w tracked) asked) h
  run-IsHeld c (command k ∷ is) w tracked (inl own) h = asked_first c k is w tracked own h
  run-IsHeld c (command k ∷ is) w tracked (inr asked) h =
      asked_later c (command k) is w
        (λ _. run-IsHeld c is _ (step-IsTracked (command k) w tracked) asked) h
  run-IsHeld c (tick ∷ is) w tracked asked h =
      asked_later c tick is w (λ _. run-IsHeld c is _ (step-IsTracked tick w tracked) asked) h
