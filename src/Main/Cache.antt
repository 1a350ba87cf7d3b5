-- ===== src/Main/Cache.antt =====
-- The cache of usernames over whole runs of the main task.
use decent_share.Base.{
  ◌≡◌, ◌⊎◌, inl, inr, List, [], ◌∷◌, String, some, Bool-cases, ◌==◌, nat_eq, string_eq, arith,
  some-eq, subst,
}
use decent_share.Base.Dict
use decent_share.Network.Message.{PeerId}
use decent_share.Network.UsernameStore.{default, get_peer_id, get_username, insert}
use decent_share.Network.UsernameStore.Consistency.{insert_lem}
use decent_share.Task.{TaskEnv, TaskTrace, TaskWorld}
use decent_share.Task.Invariants.{Frame, IsAnswer}
use decent_share.Action.Invariants.{handle_trade-Keeps, handle_accept_trade-Keeps}
use decent_share.Network.Client.Invariants.{decline_trade-Keeps, direct_message-Keeps}
use decent_share.Interface.Invariants.{Own}
use decent_share.Main.{Wake, run}
use decent_share.Main.Invariants.{run-Keeps}

module _ (env : TaskEnv) where
  -- At some point of the trace, now or before, a search was answered with this peer and this name.
  abbrev pub WasAnswered : String → PeerId → TaskTrace → Type 0
  WasAnswered u p [] = ⊥
  WasAnswered u p (a ∷ t) = IsAnswer env u p (a ∷ t) ⊎ WasAnswered u p t

  -- Whatever the cache says was found by a search.
  abbrev pub IsLearned : TaskWorld → Type 0
  IsLearned w =
      ((u : String) (p : PeerId)
        → get_peer_id w.username_store u ≡ some p
        → WasAnswered u p w.trace)
      × ((p : PeerId) (u : String)
          → get_username w.username_store p ≡ some u
          → WasAnswered u p w.trace)

  answered_now : (u : String) (p : PeerId) (t : TaskTrace) → IsAnswer env u p t → WasAnswered u p t
  answered_now u p [] h = h
  answered_now u p (a ∷ t) h = inl h

  cached_names :
      (u : String) (p : PeerId) (w : TaskWorld)
      → IsAnswer env u p w.trace
      → IsLearned w
      → IsLearned (record w { username_store = insert w.username_store u p })
  cached_names u p w k h = (peers, names)
    where
      peers :
          (v : String) (q : PeerId)
          → get_peer_id (insert w.username_store u p) v ≡ some q
          → WasAnswered v q w.trace
      peers v q e = elim (Bool-cases (u == v)) [
        | inl f ↦
            let same : p ≡ q =
              some-eq (ground (arith, e, f, (insert_lem w.username_store u v p q).0)) in
            subst (λ x. WasAnswered x q w.trace) ((string_eq.beq_iff u v).0 f)
              (subst (λ x. WasAnswered u x w.trace) same (answered_now u p w.trace k))
        | inr f ↦ h.0 v q (ground (arith, e, f, (insert_lem w.username_store u v p q).0))
      ]

      names :
          (q : PeerId) (v : String)
          → get_username (insert w.username_store u p) q ≡ some v
          → WasAnswered v q w.trace
      names q v e = elim (Bool-cases (p == q)) [
        | inl f ↦
            let same : u ≡ v =
              some-eq (ground (arith, e, f, (insert_lem w.username_store u v p q).1)) in
            subst (λ x. WasAnswered v x w.trace) ((nat_eq.beq_iff p q).0 f)
              (subst (λ x. WasAnswered x p w.trace) same (answered_now u p w.trace k))
        | inr f ↦ h.1 q v (ground (arith, e, f, (insert_lem w.username_store u v p q).1))
      ]

  pub learned : Frame env IsLearned (λ a. Unit)
  learned = record {
    plain = λ a h. tt;
    logged = λ a w free h. ((λ u p e. inr (h.0 u p e)), (λ p u e. inr (h.1 p u e)));
    cached = cached_names;
  }

  own : Own env IsLearned
  own = record {
    trade = λ o source u r path. handle_trade-Keeps learned o source u r path (λ b p c. tt);
    accept = λ u o path r source.
        handle_accept_trade-Keeps learned u o path r source (λ b p c. tt) (λ b. tt);
    decline = λ u o r. decline_trade-Keeps learned u o r (λ p. tt);
    message = λ u m. direct_message-Keeps learned u m (λ p c. tt);
  }

  pub empty-IsLearned : IsLearned (record { username_store = default; trace = [] })
  unfolding default get_peer_id get_username
  empty-IsLearned = ((λ u p e. cc (Dict.get-empty u)), (λ p u e. cc (Dict.get-empty p)))

  -- From the empty cache on, and whatever the user types and the network reports, in any order: each peer
  -- that the cache has for a name, and each name that it has for a peer, was the answer to a search for that
  -- name or for the name of that peer. So the cache makes nothing up.
  pub run-IsLearned :
      (wakes : List Wake)
      → IsLearned (run env wakes (record { username_store = default; trace = [] })).1
  run-IsLearned wakes = (run-Keeps learned own wakes).at _ empty-IsLearned
