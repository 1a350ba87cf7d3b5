-- ===== src/Main.antt =====
-- The loop of the main task in src/main.rs; what comes before it is in the child Program.
pub mod Program
pub mod Files
pub mod Careful
pub mod Cache
pub mod Addressees
pub mod Invariants
use decent_share.Base.{String, ℕ, List, [], ◌∷◌, Option, Result}
use decent_share.Base.Exec.{pure, ◌>>=◌, ◌>>◌}
use decent_share.Network.Message.{Event}
use decent_share.Task.{Task, TaskEnv}
use decent_share.Interface.{handle_std_in, handle_network_event}

-- What the `select!` of the loop may take: the result of reading a line, or an event of the network,
-- which is `none` if the event loop is gone.
pub data Wake : Type 0 where
  line : Result (Option String) ℕ → Wake
  notified : Option Event → Wake

module _ (env : TaskEnv) where
  unfoldable pub turn : Wake → Task (Unit {0})
  turn (line command) = handle_std_in env command
  turn (notified event) = handle_network_event env event

  -- The loop over all that comes, until a panic or an exit.
  unfoldable pub run : List Wake → Task (Unit {0})
  unfolding turn
  run [] = pure tt
  run (wake ∷ wakes) = do turn wake; run wakes
