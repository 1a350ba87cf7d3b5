-- ===== src/Action/Invariants.antt =====
-- The actions keep what their writes and the commands with the bytes of a file keep.
use decent_share.Base.{String, Option, none, some, Result, ok, err, ℕ}
use decent_share.Base.Exec.Keeps.{Keeps}
use decent_share.Network.Message.{
  PeerId, Sender, Bytes, FilePath, Error, make_trade_offer, respond_trade,
}
use decent_share.Network.Client.Invariants.{offer_trade-Keeps, accept_trade-Keeps}
use decent_share.Task.{Task, TaskEnv, TaskAct, TaskWorld, commanded, file_written}
use decent_share.Task.Invariants.{Frame, task_rules}
use decent_share.Action.{
  or_io_error, or_return, handle_trade, create_parents, store_received, handle_accept_trade,
}

module _ {P : TaskWorld → Type 0} (env : TaskEnv) where
  pub or_io_error-Keeps :
      {A B : Type 0} (r : Result A ℕ) (rest : A → Task (Result B Error))
      → ((a : A) → Keeps P (rest a))
      → Keeps P (or_io_error env r rest)
  unfolding or_io_error
  or_io_error-Keeps (err e) rest h = search task_rules
  or_io_error-Keeps (ok a) rest h = h a

  pub or_return-Keeps :
      {A B : Type 0} (r : Result A Error) (rest : A → Task (Result B Error))
      → ((a : A) → Keeps P (rest a))
      → Keeps P (or_return env r rest)
  unfolding or_return
  or_return-Keeps (err e) rest h = search task_rules
  or_return-Keeps (ok a) rest h = h a

module _ {env : TaskEnv} {P : TaskWorld → Type 0} {Free : TaskAct → Type 0}
    (frame : Frame env P Free) where
  create_parents-Keeps : (o : Option FilePath) → Keeps P (create_parents env o)
  unfolding create_parents
  create_parents-Keeps none = search task_rules
  create_parents-Keeps (some d) = search (task_rules, frame.plain)

  pub store_received-Keeps :
      (username o : String) (path : FilePath) (b : Bytes)
      → Free (file_written path b)
      → Keeps P (store_received env username o path b)
  unfolding store_received
  store_received-Keeps username o path b free =
      search (task_rules, frame, create_parents-Keeps, or_io_error-Keeps) depth 9

  pub handle_trade-Keeps :
      (o : String) (source : FilePath) (username r : String) (path : FilePath)
      → ((b : Bytes) (p : PeerId) (c : Sender) → Free (commanded (make_trade_offer o b p r path c)))
      → Keeps P (handle_trade env o source username r path)
  unfolding handle_trade
  handle_trade-Keeps o source username r path free =
      search (task_rules, offer_trade-Keeps, or_io_error-Keeps) depth 9

  pub handle_accept_trade-Keeps :
      (username o : String) (path : FilePath) (r : String) (source : FilePath)
      → ((b : Bytes) (p : PeerId) (c : Sender)
          → Free (commanded (respond_trade p r o (some b) (some c))))
      → ((b : Bytes) → Free (file_written path b))
      → Keeps P (handle_accept_trade env username o path r source)
  unfolding handle_accept_trade
  handle_accept_trade-Keeps username o path r source given written =
      search
        (task_rules, accept_trade-Keeps, or_io_error-Keeps, or_return-Keeps, store_received-Keeps)
        depth 12
