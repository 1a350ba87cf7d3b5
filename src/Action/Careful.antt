-- ===== src/Action/Careful.antt =====
-- What the user's actions check before a file is written or leaves this machine.
use decent_share.Base.{
  ◌≡◌, refl, ◌⊎◌, inl, inr, [], ◌∷◌, String, some, false, Bool-cases, Result, ok, err, ℕ,
}
use decent_share.Base.Exec.{◌>>=◌, pure}
use decent_share.Base.Exec.Keeps.{Keeps, Keeps-bind}
use decent_share.Network.Message.{
  Bytes, FilePath, Error, make_trade_offer, respond_trade, direct_message,
}
use decent_share.Network.Client.{offer_trade, accept_trade}
use decent_share.Network.Client.Invariants.{offer_trade-Keeps, accept_trade-Keeps}
use decent_share.Task.{Task, TaskEnv, TaskAct, TaskTrace, TaskWorld, commanded, file_written, query}
use decent_share.Task.Invariants.{Frame, IsPlain}
use decent_share.Action.Invariants.{or_return-Keeps, store_received-Keeps}
use decent_share.Action.{or_io_error, or_return, handle_trade, store_received, handle_accept_trade}

module _ (env : TaskEnv) where
  -- At some point of the trace, now or before, nothing stood at the path.
  abbrev pub WasFree : FilePath → TaskTrace → Type 0
  WasFree path [] = env.exists [] path ≡ false
  WasFree path (a ∷ t) = (env.exists (a ∷ t) path ≡ false) ⊎ WasFree path t

  -- At some point of the trace, now or before, the bytes were those of the file at the path.
  abbrev pub WasRead : FilePath → Bytes → TaskTrace → Type 0
  WasRead path b [] = env.read [] path ≡ ok b
  WasRead path b (a ∷ t) = (env.read (a ∷ t) path ≡ ok b) ⊎ WasRead path b t

  -- A file is written only where none stood, an offered or given file was read from a path, and the path
  -- for a requested file was free when the offer was made.
  abbrev pub IsCareful : TaskTrace → TaskAct → Type 0
  IsCareful t (file_written path b) = WasFree path t
  IsCareful t (commanded (make_trade_offer o b p r path c)) =
      ((source : FilePath) × WasRead source b t) × WasFree path t
  IsCareful t (commanded (respond_trade p r o (some b) c)) =
      (source : FilePath) × WasRead source b t
  IsCareful t _ = Unit

  abbrev pub AllCareful : TaskTrace → Type 0
  AllCareful [] = Unit
  AllCareful (a ∷ t) = IsCareful t a × AllCareful t

  abbrev IsFree : TaskAct → Type 0
  IsFree a = (t : TaskTrace) → IsCareful t a

  plain-IsFree : (a : TaskAct) → IsPlain a → IsFree a
  plain-IsFree (file_written path b) h t = absurd h
  plain-IsFree (commanded (make_trade_offer o b p r path c)) h t = absurd h
  plain-IsFree (commanded (respond_trade p r o file c)) h t = absurd h
  plain-IsFree (commanded (direct_message p m c)) h t = absurd h
  plain-IsFree _ h t = tt

  abbrev pub IsCarefulWorld : TaskWorld → Type 0
  IsCarefulWorld w = AllCareful w.trace

  pub careful : Frame env IsCarefulWorld IsFree
  careful = record {
    plain = plain-IsFree;
    logged = λ a w free h. (free w.trace, h);
    cached = λ u p w k h. h;
  }

  free_now : (path : FilePath) (t : TaskTrace) → env.exists t path ≡ false → WasFree path t
  free_now path [] e = e
  free_now path (a ∷ t) e = inl e

  read_now :
      (path : FilePath) (b : Bytes) (t : TaskTrace) → env.read t path ≡ ok b → WasRead path b t
  read_now path b [] e = e
  read_now path b (a ∷ t) e = inl e

  or_io_error-at :
      {A B : Type 0} (P : TaskWorld → Type 0) (r : Result A ℕ) (rest : A → Task (Result B Error))
      (w : TaskWorld)
      → P w
      → ((a : A) → r ≡ ok a → P (rest a w).1)
      → P (or_io_error env r rest w).1
  unfolding or_io_error pure
  or_io_error-at P (err e) rest w h k = h
  or_io_error-at P (ok a) rest w h k = k a refl

  -- After the checks of an action: the bytes were read at `source`, and `path` was free.
  abbrev IsChecked : FilePath → Bytes → FilePath → TaskTrace → Type 0
  IsChecked source b path t = WasRead source b t × WasFree path t

  module _ (source : FilePath) (b : Bytes) (path : FilePath) where
    abbrev IsCheckedWorld : TaskWorld → Type 0
    IsCheckedWorld w = IsCarefulWorld w × IsChecked source b path w.trace

    checked :
        Frame env IsCheckedWorld (λ a. (t : TaskTrace) → IsChecked source b path t → IsCareful t a)
    checked = record {
      plain = λ a h t k. plain-IsFree a h t;
      logged = λ a w free h. ((free w.trace h.1, h.0), (inr h.1.0, inr h.1.1));
      cached = λ u p w k h. h;
    }

  pub handle_trade-Keeps :
      (o : String) (source : FilePath) (username r : String) (path : FilePath)
      → Keeps IsCarefulWorld (handle_trade env o source username r path)
  unfolding handle_trade query pure ◌>>=◌
  handle_trade-Keeps o source username r path = record {
    at = λ w h. elim (Bool-cases (env.is_file w.trace source)) [
      | inr e ↦ rw e h
      | inl e ↦ rw e (elim (Bool-cases (env.exists w.trace path)) [
        | inl f ↦ rw f h
        | inr f ↦ rw f (
            or_io_error-at IsCarefulWorld (env.read w.trace source)
              (λ b. offer_trade env o b username r path) w h
              (λ b g.
                ((offer_trade-Keeps (checked source b path) o b username r path
                    (λ p c t k. ((source, k.0), k.1))).at
                  w (h, (read_now source b w.trace g, free_now path w.trace f))).0))
      ])
    ];
  }

  pub handle_accept_trade-Keeps :
      (username o : String) (path : FilePath) (r : String) (source : FilePath)
      → Keeps IsCarefulWorld (handle_accept_trade env username o path r source)
  unfolding handle_accept_trade query pure ◌>>=◌
  handle_accept_trade-Keeps username o path r source = record {
    at = λ w h. elim (Bool-cases (env.is_file w.trace source)) [
      | inr e ↦ rw e h
      | inl e ↦ rw e (elim (Bool-cases (env.exists w.trace path)) [
        | inl f ↦ rw f h
        | inr f ↦ rw f (
            or_io_error-at IsCarefulWorld (env.read w.trace source)
              (λ b. accept_trade env username r o b >>= λ answer.
                or_return env answer λ received. store_received env username o path received)
              w h
              (λ b g.
                ((Keeps-bind _ _
                    (accept_trade-Keeps (checked source b path) username r o b
                      (λ p c t k. (source, k.0)))
                    (λ answer. or_return-Keeps env answer _ (λ received.
                      store_received-Keeps (checked source b path) username o path received
                        (λ t k. k.1)))).at
                  w (h, (read_now source b w.trace g, free_now path w.trace f))).0))
      ])
    ];
  }
