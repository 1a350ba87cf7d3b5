-- ===== src/Main/Careful.antt =====
-- Files over whole runs of the main task.
use decent_share.Base.{List, []}
use decent_share.Network.UsernameStore.{UsernameStore}
use decent_share.Network.Client.Invariants.{decline_trade-Keeps, direct_message-Keeps}
use decent_share.Task.{TaskEnv}
use decent_share.Action.Careful.{
  IsCarefulWorld, AllCareful, careful, handle_trade-Keeps, handle_accept_trade-Keeps,
}
use decent_share.Interface.Invariants.{Own}
use decent_share.Main.{Wake, run}
use decent_share.Main.Invariants.{run-Keeps}

module _ (env : TaskEnv) where
  own : Own env (IsCarefulWorld env)
  own = record {
    trade = handle_trade-Keeps env;
    accept = handle_accept_trade-Keeps env;
    decline = λ u o r. decline_trade-Keeps (careful env) u o r (λ p t. tt);
    message = λ u m. direct_message-Keeps (careful env) u m (λ p c t. tt);
  }

  -- From an empty trace on, and whatever the user types and the network reports, in any order: the main
  -- task writes a file only at a path where at some point before nothing stood. The bytes of an offer or of
  -- an acceptance that it hands to the event loop were read from a file at some point before, and the path
  -- of the file that an offer asks for was free at some point before. This holds also where the task
  -- panics or exits.
  pub run-AllCareful :
      (store : UsernameStore) (wakes : List Wake)
      → AllCareful env (run env wakes (record { username_store = store; trace = [] })).1.trace
  run-AllCareful store wakes = (run-Keeps (careful env) own wakes).at _ tt
