-- ===== src/Main/Program.antt =====
-- `main` of src/main.rs: set-up, then the event loop in a task of its own beside the main task. The
-- arguments are those that clap read.
use decent_share.Base.{String, List, [], ◌∷◌, ◌++◌, Option, Result, ok, err}
use decent_share.Base.Exec.{Outcome}
use decent_share.Network.UsernameStore.{UsernameStore}
use decent_share.Network.UsernameStore
use decent_share.Network.EventLoop.Env.{Env}
use decent_share.Network.EventLoop.State
use decent_share.Network.EventLoop.State.{EventLoop, World, start}
use decent_share.Network.EventLoop.Run
use decent_share.Network.EventLoop.Run.{Input}
use decent_share.Network.EventLoop.Traces.{Every, IsDisciplined}
use decent_share.Network.EventLoop.Traces.Steps
use decent_share.Network.EventLoop.Rendezvous.Server.{IsAtServer, run-IsAtServer}
use decent_share.Network.EventLoop.Trades.Paid.{IsOwed, answers-IsOwed}
use decent_share.Network.EventLoop.Trades.Invited.{IsInvited, responses-IsInvited}
use decent_share.Network.Setup
use decent_share.Network.Setup.{SetupEnv, SetupAct, SetupError, Setup}
use decent_share.Network.Setup.Plan.{Step, carry_out, plan, server, new-Follows}
use decent_share.Task.{TaskEnv, TaskWorld}
use decent_share.Action.Careful.{AllCareful}
use decent_share.Main
use decent_share.Main.{Wake}
use decent_share.Main.Careful.{run-AllCareful}
use decent_share.Main.Cache.{IsLearned, run-IsLearned}

pub record Arguments : Type 0 where
  pub username : String
  pub rendezvous_address : Option String

-- The event loop's task and the main task, as far as each has come, or the error of set-up.
pub data Program : Type 0 where
  running : Outcome (Unit {0}) × World → Outcome (Unit {0}) × TaskWorld → Program
  stopped : SetupError → Program

module _ (setup_env : SetupEnv) (env : Env) (task_env : TaskEnv) where
  -- The event loop's surroundings, with the peer of the identity that set-up made.
  abbrev pub swarm : Env
  swarm = record env { local_peer_id = setup_env.local_peer_id }

  unfoldable pub spawn :
      List Input → List Wake → Result (UsernameStore × EventLoop) SetupError → Program
  spawn inputs wakes (err e) = stopped e
  spawn inputs wakes (ok (store, event_loop)) =
      running (Run.run swarm inputs (start event_loop))
        (Main.run task_env wakes (record { username_store = store; trace = [] }))

  unfoldable pub main : Arguments → List Input → List Wake → Program
  unfolding spawn
  main arguments inputs wakes =
      spawn inputs wakes (Setup.new setup_env arguments.username arguments.rendezvous_address []).0

  -- What holds of both tasks.
  abbrev pub IsSafe : Arguments → Program → Type 0
  IsSafe arguments (stopped e) = Unit
  IsSafe arguments (running (_, w) (_, task)) =
      IsDisciplined swarm w
      × Every IsOwed w.trace
      × Every IsInvited w.trace
      × Every (IsAtServer swarm (server setup_env arguments.rendezvous_address)) w.trace
      × AllCareful task_env task.trace
      × IsLearned task_env task

  spawn-IsSafe :
      (arguments : Arguments) (inputs : List Input) (wakes : List Wake) (steps : List Step)
      (t : List SetupAct)
      → IsSafe arguments (
          spawn inputs wakes
            (carry_out steps
              (
                UsernameStore.default,
                State.new arguments.username (server setup_env arguments.rendezvous_address),
              )
              t).0)
  unfolding spawn
  spawn-IsSafe arguments inputs wakes [] t = (
    Steps.run-IsDisciplined swarm inputs
        (start (State.new arguments.username (server setup_env arguments.rendezvous_address))) tt,
    answers-IsOwed swarm arguments.username (server setup_env arguments.rendezvous_address) inputs,
    responses-IsInvited swarm arguments.username (server setup_env arguments.rendezvous_address)
        inputs,
    run-IsAtServer swarm (server setup_env arguments.rendezvous_address) arguments.username inputs,
    run-AllCareful task_env UsernameStore.default wakes,
    run-IsLearned task_env wakes,
  )
  spawn-IsSafe arguments inputs wakes (ok acts ∷ steps) t =
      spawn-IsSafe arguments inputs wakes steps (acts ++ t)
  spawn-IsSafe arguments inputs wakes (err e ∷ steps) t = tt

  -- Whatever the arguments, and whatever the user types, the swarm reports and the two tasks tell each
  -- other: if set-up succeeds, then the event loop does only acts that are permitted, gives a file in an
  -- answer only for an offer with its names that it sent, responds only to offers that its user was shown,
  -- and asks no other rendezvous server than the one it was given; and the main task writes and hands out
  -- files with care, and caches only names that were found.
  pub main-IsSafe :
      (arguments : Arguments) (inputs : List Input) (wakes : List Wake)
      → IsSafe arguments (main arguments inputs wakes)
  unfolding main
  main-IsSafe arguments inputs wakes =
      rw ((new-Follows setup_env arguments.username arguments.rendezvous_address).by_steps [])
        (spawn-IsSafe arguments inputs wakes (plan setup_env arguments.rendezvous_address) [])
