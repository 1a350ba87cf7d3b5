-- ===== src/Action.antt =====
-- src/action.rs: the actions of the user that touch the file system.
pub mod Guards
pub mod Acceptance
pub mod Careful
pub mod Invariants
use decent_share.Base.{String, ◌<>◌, Bool, true, false, Option, none, some, Result, ok, err, not, ℕ}
use decent_share.Base.{if◌then◌else◌}
use decent_share.Base.Exec.{pure, expect, ◌>>=◌, ◌>>◌}
use decent_share.Network.Message.{
  Bytes, FilePath, Error, not_a_file, file_exists, offered_file_exists, io_error, PublishError,
}
use decent_share.Network.Client
use decent_share.Task.{
  Task, TaskEnv, TaskTrace, query, do_act, println, directories_created, file_written,
}

module _ (env : TaskEnv) where
  unfoldable pub handle_send : String → Task (Result (Unit {0}) PublishError)
  handle_send message = Client.send_message env message

  -- `result?` in a function with an `anyhow` error, where the error is one of the file system
  unfoldable pub or_io_error :
      {A B : Type 0} → Result A ℕ → (A → Task (Result B Error)) → Task (Result B Error)
  or_io_error (err error) rest = pure (err (io_error error))
  or_io_error (ok a) rest = rest a

  -- `result?` where the error is passed on as it is
  unfoldable pub or_return :
      {A B : Type 0} → Result A Error → (A → Task (Result B Error)) → Task (Result B Error)
  or_return (err error) rest = pure (err error)
  or_return (ok a) rest = rest a

  unfoldable pub handle_trade :
      String → FilePath → String → String → FilePath → Task (Result (Unit {0}) Error)
  unfolding or_io_error
  handle_trade offered offered_path username requested requested_path = do
    source_is_file ← query (λ t. env.is_file t offered_path)
    if not source_is_file then pure (err (not_a_file offered_path)) else (do
      taken ← query (λ t. env.exists t requested_path)
      if taken then pure (err (file_exists requested_path)) else (do
        read ← query (λ t. env.read t offered_path)
        or_io_error read λ offered_bytes.
            Client.offer_trade env offered offered_bytes username requested requested_path))

  unfoldable pub create_parents : Option FilePath → Task (Unit {0})
  create_parents none = pure tt
  create_parents (some directory) = do
    created ← query (λ t. env.create_dir_all t directory)
    do_act (directories_created directory)
    expect created "Failed to create parent directories"

  -- The end of `handle_accept_trade`, from the received bytes on.
  unfoldable pub store_received :
      String → String → FilePath → Bytes → Task (Result (Unit {0}) Error)
  unfolding create_parents or_io_error
  store_received username offered offered_path offered_bytes = do
    create_parents (env.parent offered_path)
    written ← query (λ t. env.write t offered_path offered_bytes)
    do_act (file_written offered_path offered_bytes)
    or_io_error written λ _. (do
      println
          (username <> "'s '" <> offered <> "' file is now available at '" <> offered_path <> "'")
      pure (ok tt))

  unfoldable pub handle_accept_trade :
      String → String → FilePath → String → FilePath → Task (Result (Unit {0}) Error)
  unfolding or_io_error or_return store_received
  handle_accept_trade username offered offered_path requested requested_path = do
    source_is_file ← query (λ t. env.is_file t requested_path)
    if not source_is_file then pure (err (not_a_file requested_path)) else (do
      taken ← query (λ t. env.exists t offered_path)
      if taken then pure (err (offered_file_exists offered_path)) else (do
        read ← query (λ t. env.read t requested_path)
        or_io_error read λ requested_bytes. (do
          answer ← Client.accept_trade env username requested offered requested_bytes
          or_return answer
              λ offered_bytes. store_received username offered offered_path offered_bytes)))
