-- ===== src/Interface/Parsing.antt =====
-- The command line of src/interface.rs: the case of the action, and missing arguments.
use decent_share.Base.{
  String, ◌≡◌, refl, List, [], ◌∷◌, ◌==◌, string_eq, if◌then◌else◌, ℕ, suc, ◌<◌, arith, Bool-cases,
  inl, inr,
}
use decent_share.Task.{TaskEnv, TaskWorld, println}
use decent_share.Interface.Usage.{trade_usage, send_usage, dm_usage, accept_usage, decline_usage}
use decent_share.Interface.{
  run_send, run_trade, run_dm, run_accept, run_decline, dispatch, run_arguments,
}

abbrev pub length : List String → ℕ
length [] = 0
length (x ∷ xs) = suc (length xs)

-- What an action needs, itself included, and its usage line.
abbrev pub needed : String → ℕ
needed action =
    if action == "send"
    then 2
    else if action == "trade"
    then 6
    else if action == "dm"
    then 3
    else if action == "accept"
    then 6
    else if action == "decline"
    then 4
    else 0

abbrev pub usage : String → String
usage action =
    if action == "send"
    then send_usage
    else if action == "trade"
    then trade_usage
    else if action == "dm"
    then dm_usage
    else if action == "accept"
    then accept_usage
    else decline_usage

module _ (env : TaskEnv) where
  short_send :
      (l : List String) (w : TaskWorld) → length l < 2 → run_send env l w ≡ println send_usage w
  unfolding run_send
  short_send [] w h = refl
  short_send (_ ∷ []) w h = refl
  short_send (_ ∷ _ ∷ l) w h = absurd (omega arith)

  short_dm : (l : List String) (w : TaskWorld) → length l < 3 → run_dm env l w ≡ println dm_usage w
  unfolding run_dm
  short_dm [] w h = refl
  short_dm (_ ∷ []) w h = refl
  short_dm (_ ∷ _ ∷ []) w h = refl
  short_dm (_ ∷ _ ∷ _ ∷ l) w h = absurd (omega arith)

  short_decline :
      (l : List String) (w : TaskWorld)
      → length l < 4
      → run_decline env l w ≡ println decline_usage w
  unfolding run_decline
  short_decline [] w h = refl
  short_decline (_ ∷ []) w h = refl
  short_decline (_ ∷ _ ∷ []) w h = refl
  short_decline (_ ∷ _ ∷ _ ∷ []) w h = refl
  short_decline (_ ∷ _ ∷ _ ∷ _ ∷ l) w h = absurd (omega arith)

  short_trade :
      (l : List String) (w : TaskWorld) → length l < 6 → run_trade env l w ≡ println trade_usage w
  unfolding run_trade
  short_trade [] w h = refl
  short_trade (_ ∷ []) w h = refl
  short_trade (_ ∷ _ ∷ []) w h = refl
  short_trade (_ ∷ _ ∷ _ ∷ []) w h = refl
  short_trade (_ ∷ _ ∷ _ ∷ _ ∷ []) w h = refl
  short_trade (_ ∷ _ ∷ _ ∷ _ ∷ _ ∷ []) w h = refl
  short_trade (_ ∷ _ ∷ _ ∷ _ ∷ _ ∷ _ ∷ l) w h = absurd (omega arith)

  short_accept :
      (l : List String) (w : TaskWorld) → length l < 6 → run_accept env l w ≡ println accept_usage w
  unfolding run_accept
  short_accept [] w h = refl
  short_accept (_ ∷ []) w h = refl
  short_accept (_ ∷ _ ∷ []) w h = refl
  short_accept (_ ∷ _ ∷ _ ∷ []) w h = refl
  short_accept (_ ∷ _ ∷ _ ∷ _ ∷ []) w h = refl
  short_accept (_ ∷ _ ∷ _ ∷ _ ∷ _ ∷ []) w h = refl
  short_accept (_ ∷ _ ∷ _ ∷ _ ∷ _ ∷ _ ∷ l) w h = absurd (omega arith)

  -- An action with fewer arguments than it needs prints its usage line and does nothing else: no
  -- command is sent and no file is read or written.
  pub dispatch_short :
      (action : String) (arguments : List String) (w : TaskWorld)
      → length arguments < needed action
      → dispatch env action arguments w ≡ println (usage action) w
  unfolding dispatch
  dispatch_short action l w h = elim (Bool-cases (action == "send")) [
    | inl e ↦ rw e (short_send l w (rw e at h))
    | inr a ↦ elim (Bool-cases (action == "trade")) [
      | inl e ↦ rw (a, e) (short_trade l w (rw (a, e) at h))
      | inr b ↦ elim (Bool-cases (action == "dm")) [
        | inl e ↦ rw (a, b, e) (short_dm l w (rw (a, b, e) at h))
        | inr c ↦ elim (Bool-cases (action == "accept")) [
          | inl e ↦ rw (a, b, c, e) (short_accept l w (rw (a, b, c, e) at h))
          | inr d ↦ elim (Bool-cases (action == "decline")) [
            | inl e ↦ rw (a, b, c, d, e) (short_decline l w (rw (a, b, c, d, e) at h))
            | inr e ↦ absurd (none_needed (rw (a, b, c, d, e) at h))
          ]
        ]
      ]
    ]
  ]
    where
      none_needed : {n : ℕ} → n < 0 → ⊥
      none_needed h = elim h [ ]

  -- The case of the action does not matter: two actions with the same lower-case form do the same
  -- with the same arguments.
  pub run_arguments_case :
      (action action' : String) (rest : List String) (w : TaskWorld)
      → env.to_lowercase action ≡ env.to_lowercase action'
      → run_arguments env (action ∷ rest) w ≡ run_arguments env (action' ∷ rest) w
  unfolding run_arguments
  run_arguments_case action action' rest w e = rw e refl
