-- ===== src/Task.antt =====
-- The main task of src/main.rs: what it does to its surroundings, and what they answer. The event
-- loop's side of the channels, the file system, the terminal, the regular expression of the command
-- line and the text functions of the standard library are parameters.
pub mod Invariants
use decent_share.Base.{String, Bool, ℕ, List, ◌∷◌, Option, none, some, Result}
use decent_share.Base.Exec.{Exec, pure, panic, returned, expect, ◌>>=◌, ◌>>◌}
use decent_share.Network.Message.{
  PeerId, Sender, Bytes, FilePath, Error, PublishError, PutRecordError, Command,
}
use decent_share.Network.UsernameStore.{UsernameStore}

-- `exited` is `std::process::exit`.
pub data TaskAct : Type 0 where
  commanded : Command → TaskAct
  directories_created : FilePath → TaskAct
  file_written : FilePath → Bytes → TaskAct
  printed error_printed : String → TaskAct
  exited : ℕ → TaskAct

-- Newest first.
abbrev pub TaskTrace : Type 0
TaskTrace = List TaskAct

pub record TaskEnv : Type 0 where
  -- `oneshot::channel()`, by the number of the channel
  pub new_channel : TaskTrace → Sender
  -- Whether the event loop still takes commands.
  pub accepts : TaskTrace → Command → Bool
  -- What arrives on the channel of the last command; `none` if its sender was dropped.
  pub status : TaskTrace → Option (Result (Unit {0}) PutRecordError)
  pub peer_id : TaskTrace → Option (Option PeerId)
  pub username : TaskTrace → Option (Result String Error)
  pub delivery : TaskTrace → Option (Result (Unit {0}) Error)
  pub bytes : TaskTrace → Option (Result (Option Bytes) Error)
  pub publication : TaskTrace → Option (Result (Unit {0}) PublishError)
  -- The file system; the errors are opaque.
  pub is_file : TaskTrace → FilePath → Bool
  pub exists : TaskTrace → FilePath → Bool
  pub read : TaskTrace → FilePath → Result Bytes ℕ
  pub create_dir_all : TaskTrace → FilePath → Bool
  pub write : TaskTrace → FilePath → Bytes → Result (Unit {0}) ℕ
  pub parent : FilePath → Option FilePath
  -- Texts.
  pub to_lowercase : String → String
  pub matches : String → List String
  -- `{error:?}` and `error.to_string()`
  pub show_error : Error → String
  pub error_to_string : Error → String
  pub show_publish_error : PublishError → String
  pub show_put_record_error : PutRecordError → String
  pub show_io_error : ℕ → String

pub record TaskWorld : Type 0 where
  pub username_store : UsernameStore
  pub trace : TaskTrace

abbrev pub Task : Type 0 → Type 0
Task A = Exec TaskWorld A

-- An act with no answer.
unfoldable pub do_act : TaskAct → Task (Unit {0})
do_act a w = (returned tt, record w { trace = a ∷ w.trace })

unfoldable pub println : String → Task (Unit {0})
unfolding do_act
println line = do_act (printed line)

unfoldable pub eprintln : String → Task (Unit {0})
unfolding do_act
eprintln line = do_act (error_printed line)

-- A question to the surroundings.
unfoldable pub query : {A : Type 0} → (TaskTrace → A) → Task A
query f w = (returned (f w.trace), w)

-- A received value; the message is that of `expect`.
unfoldable pub received : {A : Type 0} → String → Option A → Task A
received message none = panic message
received message (some a) = pure a

module _ (env : TaskEnv) where
  -- `self.command_sender.send(command).await.expect(…)`
  unfoldable pub send_command : Command → Task (Unit {0})
  unfolding query do_act expect
  send_command command = do
    accepted ← query (λ t. env.accepts t command)
    expect accepted "Command receiver was dropped"
    do_act (commanded command)

  -- A channel is made, the command is sent with its sender, and the answer is awaited.
  unfoldable pub ask : {A : Type 0} → (Sender → Command) → (TaskTrace → Option A) → String → Task A
  unfolding send_command received
  ask command answer message = do
    sender ← query env.new_channel
    send_command (command sender)
    reply ← query answer
    received message reply
