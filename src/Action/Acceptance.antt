-- ===== src/Action/Acceptance.antt =====
-- What `handle_accept_trade` of src/action.rs leaves in the file system.
use decent_share.Base.{String, ◌<>◌, ◌≡◌, refl, [], ◌∷◌, ◌++◌, Option, none, some, ok, true, false}
use decent_share.Base.Exec.{returned, expect, ◌>>=◌}
use decent_share.Network.Message.{Bytes, FilePath}
use decent_share.Network.Client
use decent_share.Task.{
  TaskEnv, TaskTrace, TaskWorld, query, do_act, println, printed, directories_created, file_written,
}
use decent_share.Action.{
  handle_accept_trade, store_received, create_parents, or_io_error, or_return,
}

abbrev pub made_for : Option FilePath → TaskTrace
made_for none = []
made_for (some directory) = directories_created directory ∷ []

module _ (env : TaskEnv)
    (directories : (t : TaskTrace) (p : FilePath) → env.create_dir_all t p ≡ true)
    (writes : (t : TaskTrace) (p : FilePath) (b : Bytes) → env.write t p b ≡ ok tt) where
  stored_lem :
      (u o : String) (target : FilePath) (b : Bytes) (parent : Option FilePath) (w : TaskWorld)
      → env.parent target ≡ parent
      → store_received env u o target b w ≡ (
        returned (ok tt),
        record w {
          trace =
              printed (u <> "'s '" <> o <> "' file is now available at '" <> target <> "'")
              ∷ file_written target b
              ∷ (made_for parent ++ w.trace);
        },
      )
  unfolding store_received create_parents or_io_error query do_act println expect ◌>>=◌
  stored_lem u o target b none w e = simp (e, writes)
  stored_lem u o target b (some directory) w e = simp (e, writes, directories)

  -- If the checks pass, the event loop delivers bytes for the trade, and the file system takes what is
  -- written, then an accepted trade makes the directories above the target path, writes exactly the
  -- delivered bytes to it, and reports the file to the user.
  pub handle_accept_trade_stores :
      (u o : String) (target : FilePath) (r : String) (source : FilePath) (given received : Bytes)
      (w w' : TaskWorld)
      → env.is_file w.trace source ≡ true
      → env.exists w.trace target ≡ false
      → env.read w.trace source ≡ ok given
      → Client.accept_trade env u r o given w ≡ (returned (ok received), w')
      → handle_accept_trade env u o target r source w ≡ (
        returned (ok tt),
        record w' {
          trace =
              printed (u <> "'s '" <> o <> "' file is now available at '" <> target <> "'")
              ∷ file_written target received
              ∷ (made_for (env.parent target) ++ w'.trace);
        },
      )
  unfolding handle_accept_trade or_io_error or_return query ◌>>=◌
  handle_accept_trade_stores u o target r source given received w w' file free contents answer =
      rw (file, free, contents, answer) (stored_lem u o target received (env.parent target) w' refl)
