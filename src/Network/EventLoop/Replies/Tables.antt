-- ===== src/Network/EventLoop/Replies/Tables.antt =====
-- What an answer or a new request does to the senders in the six tables.
use decent_share.Base.{
  ℕ, ◌≡◌, refl, sym, subst, ◌∙◌, ◌⊎◌, inl, inr, ◌∷◌, none, some, ◌==◌, nat_eq, arith, if◌then◌else◌,
  true, false, Bool, Bool-cases,
}
use decent_share.Base.Dict
use decent_share.Base.Dict.{Dict}
use decent_share.Network.Message.{Sender}
use decent_share.Network.EventLoop.Env.{Act}
use decent_share.Network.EventLoop.State.{
  EventLoop, World, Table, registering, messages, peer_ids, usernames, trade_offers,
  trade_responses, pending, with_pending,
}
use decent_share.Network.EventLoop.Swarm.{log}
use decent_share.Network.EventLoop.Replies.{counter, Issues, IsIssued, HeldOr, IsTracked}

abbrev pub same_table : Table → Table → Bool
same_table registering registering = true
same_table messages messages = true
same_table peer_ids peer_ids = true
same_table usernames usernames = true
same_table trade_offers trade_offers = true
same_table trade_responses trade_responses = true
same_table _ _ = false

pending-with_pending :
    (t j : Table) (d : Dict ℕ Sender) (s : EventLoop)
    → pending j (with_pending t d s) ≡ (if same_table t j then d else pending j s)
pending-with_pending registering registering d s = refl
pending-with_pending messages messages d s = refl
pending-with_pending peer_ids peer_ids d s = refl
pending-with_pending usernames usernames d s = refl
pending-with_pending trade_offers trade_offers d s = refl
pending-with_pending trade_responses trade_responses d s = refl
pending-with_pending _ _ d s = refl

same_table-eq : (t j : Table) → same_table t j ≡ true → t ≡ j
same_table-eq registering registering e = refl
same_table-eq messages messages e = refl
same_table-eq peer_ids peer_ids e = refl
same_table-eq usernames usernames e = refl
same_table-eq trade_offers trade_offers e = refl
same_table-eq trade_responses trade_responses e = refl
same_table-eq _ _ e = cc

same_table_refl : (t : Table) → same_table t t ≡ true
same_table_refl registering = refl
same_table_refl messages = refl
same_table_refl peer_ids = refl
same_table_refl usernames = refl
same_table_refl trade_offers = refl
same_table_refl trade_responses = refl

abbrev pub put_in : Table → ℕ → Sender → EventLoop → EventLoop
put_in t id c s = with_pending t (Dict.insert (pending t s) id c) s

abbrev pub taken_from : Table → ℕ → EventLoop → EventLoop
taken_from t id s = with_pending t (Dict.remove (pending t s) id) s

-- What each lookup finds after the two changes of a table.
get-put_in :
    (t j : Table) (id i : ℕ) (c : Sender) (s : EventLoop)
    → Dict.get (pending j (put_in t id c s)) i ≡ (
        if same_table t j
        then (if id == i then some c else Dict.get (pending t s) i)
        else Dict.get (pending j s) i)
get-put_in t j id i c s = ground (
  arith,
  pending-with_pending t j (Dict.insert (pending t s) id c) s,
  Dict.get-insert (pending t s) id i c,
)

get-taken_from :
    (t j : Table) (id i : ℕ) (s : EventLoop)
    → Dict.get (pending j (taken_from t id s)) i ≡ (
        if same_table t j
        then (if id == i then none else Dict.get (pending t s) i)
        else Dict.get (pending j s) i)
get-taken_from t j id i s = ground (
  arith,
  pending-with_pending t j (Dict.remove (pending t s) id) s,
  Dict.get-remove (pending t s) id i,
)

-- One act more, and a change of the event loop that leaves the tables alone.
pub log-IsTracked : (a : Act) (w : World) → IsTracked w → IsTracked (log a w)
log-IsTracked a w h = λ j i c e. inr (h j i c e)

pub log-HeldOr :
    (Z : Type 0) (c : Sender) (a : Act) (w : World) → HeldOr Z c w → HeldOr Z c (log a w)
log-HeldOr Z c a w (inl waits) = inl waits
log-HeldOr Z c a w (inr answered) = inr (inr answered)

-- A sender put in a table under the identifier that the last act gave.
abbrev pub put_after : Table → ℕ → Sender → Act → World → World
put_after t id d a w = record { loop = put_in t id d w.loop; trace = a ∷ w.trace }

module _ (t : Table) (id : ℕ) (d : Sender) (a : Act) (w : World) (tracked : IsTracked w) where
  abbrev put : World
  put = put_after t id d a w

  pub put-IsTracked : Issues (counter t) id a → IsTracked put
  put-IsTracked given j i c e = elim (Bool-cases (same_table t j)) [
    | inl same ↦
        subst (λ k. IsIssued (counter k) i (a ∷ w.trace)) (same_table-eq t j same)
          (elim (Bool-cases (id == i)) [
            | inl hit ↦
                inl (subst (λ k. Issues (counter t) k a) ((nat_eq.beq_iff id i).0 hit) given)
            | inr miss ↦ inr (tracked t i c (sym (seen same miss) ∙ e))
          ])
    | inr other ↦ inr (tracked j i c (sym (unseen other) ∙ e))
  ]
    where
      seen :
          same_table t j ≡ true
          → (id == i) ≡ false
          → Dict.get (pending j put.loop) i ≡ Dict.get (pending t w.loop) i
      seen same miss = get-put_in t j id i d w.loop ∙ rw (same, miss)

      unseen :
          same_table t j ≡ false → Dict.get (pending j put.loop) i ≡ Dict.get (pending j w.loop) i
      unseen other = get-put_in t j id i d w.loop ∙ rw other

  pub put-HeldOr_self : (Z : Type 0) → HeldOr Z d put
  put-HeldOr_self Z = inl (t, id, ground (arith, get-put_in t t id id d w.loop, same_table_refl t))

  pub put-HeldOr :
      (Z : Type 0) (c : Sender) → ¬ IsIssued (counter t) id w.trace → HeldOr Z c w → HeldOr Z c put
  put-HeldOr Z c fresh (inr answered) = inr (inr answered)
  put-HeldOr Z c fresh (inl (j, i, e)) = inl (
    j,
    i,
    get-put_in t j id i d w.loop ∙ elim (Bool-cases (same_table t j)) [
      | inl same ↦ rw same (elim (Bool-cases (id == i)) [
        | inl hit ↦ absurd (
            fresh (
              subst (λ k. IsIssued (counter t) k w.trace) (sym ((nat_eq.beq_iff id i).0 hit))
                (issued same)))
        | inr miss ↦ rw miss (here same)
      ])
      | inr other ↦ rw other e
    ],
  )
    where
      here : same_table t j ≡ true → Dict.get (pending t w.loop) i ≡ some c
      here same =
          subst (λ k. Dict.get (pending k w.loop) i ≡ some c) (sym (same_table-eq t j same)) e

      issued : same_table t j ≡ true → IsIssued (counter t) i w.trace
      issued same = tracked t i c (here same)

-- A sender taken out of a table.
module _ (t : Table) (id : ℕ) (w : World) where
  abbrev pub taken : World
  taken = record w { loop = taken_from t id w.loop }

  found_before :
      (j : Table) (i : ℕ) (c : Sender)
      → Dict.get (pending j taken.loop) i ≡ some c
      → Dict.get (pending j w.loop) i ≡ some c
  found_before j i c e = elim (Bool-cases (same_table t j)) [
    | inl same ↦
        subst (λ k. Dict.get (pending k w.loop) i ≡ some c) (same_table-eq t j same)
          (ground (arith, get-taken_from t j id i w.loop))
    | inr other ↦ ground (arith, get-taken_from t j id i w.loop)
  ]

  pub taken-IsTracked : IsTracked w → IsTracked taken
  taken-IsTracked tracked j i c e = tracked j i c (found_before j i c e)

  -- What was held is still held, or it is what was taken.
  pub taken-HeldOr :
      (Z : Type 0) (c : Sender)
      → HeldOr Z c w
      → HeldOr Z c taken ⊎ (Dict.get (pending t w.loop) id ≡ some c)
  taken-HeldOr Z c (inr answered) = inl (inr answered)
  taken-HeldOr Z c (inl (j, i, e)) = elim (Bool-cases (same_table t j)) [
    | inl same ↦
        let here : Dict.get (pending t w.loop) i ≡ some c =
          subst (λ k. Dict.get (pending k w.loop) i ≡ some c) (sym (same_table-eq t j same)) e in
        elim (Bool-cases (id == i)) [
          | inl hit ↦ inr (
              subst (λ k. Dict.get (pending t w.loop) k ≡ some c)
                (sym ((nat_eq.beq_iff id i).0 hit)) here)
          | inr miss ↦ inl (inl (j, i, get-taken_from t j id i w.loop ∙ rw (same, miss) here))
        ]
    | inr other ↦ inl (inl (j, i, get-taken_from t j id i w.loop ∙ rw other e))
  ]
