-- ===== src/Action/Guards.antt =====
-- The checks of `handle_trade` and `handle_accept_trade` of src/action.rs.
use decent_share.Base.{
  String, ◌≡◌, refl, ap, Bool, true, false, Bool-cases, inl, inr, ◌⊎◌, Result, ok, err, ℕ,
}
use decent_share.Base.Exec.{Outcome, returned, ◌>>=◌}
use decent_share.Network.Message.{
  Bytes, FilePath, Error, not_a_file, file_exists, offered_file_exists, io_error,
}
use decent_share.Task.{TaskEnv, TaskWorld, query}
use decent_share.Network.Client
use decent_share.Action.{handle_trade, handle_accept_trade}

-- The outcome of the three checks, in the order in which they are made; `exists` is the error of the
-- second.
abbrev pub checked :
    (FilePath → Error) → Bool → Bool → Result Bytes ℕ → FilePath → FilePath → Result Bytes Error
checked exists false taken read source target = err (not_a_file source)
checked exists true true read source target = err (exists target)
checked exists true false (err n) source target = err (io_error n)
checked exists true false (ok b) source target = ok b

err-eq : {A E : Type 0} {a b : E} → ◌≡◌ {A = Result A E} (err a) (err b) → a ≡ b
err-eq h = cc

ok-eq : {A E : Type 0} {a b : A} → ◌≡◌ {A = Result A E} (ok a) (ok b) → a ≡ b
ok-eq h = cc

Result-cases : {A E : Type 0} (r : Result A E) → ((a : A) × (r ≡ ok a)) ⊎ ((e : E) × (r ≡ err e))
Result-cases (ok a) = inl (a, refl)
Result-cases (err e) = inr (e, refl)

module _ (env : TaskEnv) (w : TaskWorld) where
  abbrev pub check : (FilePath → Error) → FilePath → FilePath → Result Bytes Error
  check exists source target =
      checked exists (env.is_file w.trace source) (env.exists w.trace target)
        (env.read w.trace source) source target

  ended :
      {A B : Type 0} {e e' : Error}
      → ◌≡◌ {A = Result A Error} (err e) (err e')
      → ◌≡◌ {A = Outcome (Result B Error) × TaskWorld} (returned (err e), w) (returned (err e'), w)
  ended h = ap (λ x. (returned (err x), w)) (err-eq h)

  -- What follows the checks.
  abbrev pub offer_if :
      Result Bytes Error
      → String
      → String
      → String
      → FilePath
      → Outcome (Result (Unit {0}) Error) × TaskWorld
  offer_if (err e) o u r target = (returned (err e), w)
  offer_if (ok b) o u r target = Client.offer_trade env o b u r target w

  -- If the offered path is a file that can be read and nothing stands at the path for the requested
  -- file, then the client is asked to offer the trade, with the bytes that were read, and what it does
  -- and returns is what is done and returned; otherwise the first check that fails gives the error, no
  -- command is sent and nothing changes.
  pub handle_trade_lem :
      (o : String) (source : FilePath) (u r : String) (target : FilePath)
      → handle_trade env o source u r target w
        ≡ offer_if (check file_exists source target) o u r target
  unfolding handle_trade ◌>>=◌ query
  handle_trade_lem o source u r target = elim (Bool-cases (env.is_file w.trace source)) [
    | inr f ↦ rw f refl
    | inl f ↦ elim (Bool-cases (env.exists w.trace target)) [
      | inl t ↦ rw (f, t) refl
      | inr t ↦ elim (Result-cases (env.read w.trace source)) [
        | inr (n, x) ↦ rw (f, t, x) refl
        | inl (b, x) ↦ rw (f, t, x) refl
      ]
    ]
  ]

  -- The same checks guard the acceptance of a trade: if one fails, then the trade is not accepted, no
  -- file is written, and whatever stands at the target path stays.
  pub handle_accept_trade_guarded :
      (u o : String) (target : FilePath) (r : String) (source : FilePath) (e : Error)
      → check offered_file_exists source target ≡ err e
      → handle_accept_trade env u o target r source w ≡ (returned (err e), w)
  unfolding handle_accept_trade ◌>>=◌ query
  handle_accept_trade_guarded u o target r source e h =
      elim (Bool-cases (env.is_file w.trace source)) [
        | inr f ↦ rw f (ended (rw f at h))
        | inl f ↦ elim (Bool-cases (env.exists w.trace target)) [
          | inl t ↦ rw (f, t) (ended (rw (f, t) at h))
          | inr t ↦ elim (Result-cases (env.read w.trace source)) [
            | inr (n, x) ↦ rw (f, t, x) (ended (rw (f, t, x) at h))
            | inl (b', x) ↦ cc (rw (f, t, x) at h)
          ]
        ]
      ]
