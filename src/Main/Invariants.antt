-- ===== src/Main/Invariants.antt =====
-- The loop of the main task keeps what the four operations on a user keep.
use decent_share.Base.{List, [], ◌∷◌}
use decent_share.Base.Exec.Keeps.{Keeps, Keeps-then, Keeps-pure}
use decent_share.Task.{TaskEnv, TaskWorld, TaskAct}
use decent_share.Task.Invariants.{Frame}
use decent_share.Interface.Invariants.{Own, handle_std_in-Keeps, handle_network_event-Keeps}
use decent_share.Main.{Wake, line, notified, turn, run}

module _ {env : TaskEnv} {P : TaskWorld → Type 0} {Free : TaskAct → Type 0}
    (frame : Frame env P Free) (own : Own env P) where
  turn-Keeps : (wake : Wake) → Keeps P (turn env wake)
  unfolding turn
  turn-Keeps (line command) = handle_std_in-Keeps frame own command
  turn-Keeps (notified event) = handle_network_event-Keeps frame own event

  pub run-Keeps : (wakes : List Wake) → Keeps P (run env wakes)
  unfolding run
  run-Keeps [] = Keeps-pure tt
  run-Keeps (wake ∷ wakes) = Keeps-then _ _ (turn-Keeps wake) (run-Keeps wakes)
