-- ===== src/Network/EventLoop/Replies/Handlers.antt =====
-- The senders of the tables, under the calls of Swarm that the handlers share.
use decent_share.Base.{
  ℕ, String, ◌≡◌, refl, sym, ap, ◌∙◌, ◌⊎◌, inl, inr, Option, none, some, nat_eq, Bool, Bool-cases,
  Option-cases,
}
use decent_share.Base.Exec.{pure, ◌>>=◌, expect}
use decent_share.Base.Exec.Keeps.{Keeps, keeps_rules}
use decent_share.Base.Dict
use decent_share.Base.Dict.{Dict}
use decent_share.Network.Message.{PeerId, Sender, Bytes, FilePath, TradeOffer, Event, Reply, Cookie}
use decent_share.Network.EventLoop.Env.{Env, Act, event_sent, replied}
use decent_share.Network.EventLoop.State.{EventLoop, World, Table, registering, pending}
use decent_share.Network.EventLoop.Swarm.{
  Handler, log, modify_loop, take_pending, take_outgoing, take_inbound, act, attempt,
  attempt_or_panic, reply, send_event, put_record, publish, reply_to, reply_or,
}
use decent_share.Network.EventLoop.Replies.{HeldOr, IsTracked}
use decent_share.Network.EventLoop.Replies.Tables.{
  log-IsTracked, log-HeldOr, taken-IsTracked, taken-HeldOr, taken,
}

module _ (Z : Type 0) (env : Env) (c : Sender) where
  abbrev pub Holds : World → Type 0
  Holds w = IsTracked w × HeldOr Z c w

  abbrev pub Holding : {A : Type 0} → Handler A → Type 0
  Holding m = Keeps Holds m

  pub log-Holds : (a : Act) (w : World) → Holds w → Holds (log a w)
  log-Holds a w (tracked, held) = (log-IsTracked a w tracked, log-HeldOr Z c a w held)

  pub act-Holding : (a : Act) → Holding (act env a)
  unfolding act
  act-Holding a = record { at = λ w h. log-Holds a w h }

  pub attempt-Holding : (a : Act) → Holding (attempt env a)
  unfolding attempt
  attempt-Holding a = record { at = λ w h. log-Holds a w h }

  pub attempt_or_panic-Holding : (a : Act) (m : String) → Holding (attempt_or_panic env a m)
  unfolding attempt_or_panic
  attempt_or_panic-Holding a m = search (keeps_rules, attempt-Holding)

  pub send_event-Holding : (e : Event) → Holding (send_event env e)
  unfolding send_event
  send_event-Holding e = attempt_or_panic-Holding (event_sent e) _

  pub reply-Holding : (d : Sender) (v : Reply) (m : String) → Holding (reply env d v m)
  unfolding reply
  reply-Holding d v m = attempt_or_panic-Holding (replied d v) m

  pub publish-Holding : (text : Bytes) → Holding (publish env text)
  unfolding publish
  publish-Holding text = record { at = λ w h. log-Holds _ w h }

  pub put_record-Holding : (key value : Bytes) → Holding (put_record env key value)
  unfolding put_record ◌>>=◌
  put_record-Holding key value = record {
    at = λ w h. elim (Option-cases (env.put_record w.trace key value)) [
      | inl e ↦ rw (e, put_record) (log-Holds _ w h)
      | inr (id, e) ↦ rw (e, put_record) (log-Holds _ w h)
    ];
  }

  -- A change of the event loop that leaves the six tables alone.
  untouched-Holds :
      (s : EventLoop) (w : World)
      → ((t : Table) → pending t s ≡ pending t w.loop)
      → Holds w
      → Holds (record w { loop = s })
  untouched-Holds s w same (tracked, inr answered) =
      (λ t i d e. tracked t i d (ap (λ m. Dict.get m i) (sym (same t)) ∙ e), inr answered)
  untouched-Holds s w same (tracked, inl (j, i, found)) = (
    λ t i d e. tracked t i d (ap (λ m. Dict.get m i) (sym (same t)) ∙ e),
    inl (j, i, ap (λ m. Dict.get m i) (same j) ∙ found),
  )

  pub modify_loop-Holding :
      (f : EventLoop → EventLoop)
      → ((t : Table) (s : EventLoop) → pending t (f s) ≡ pending t s)
      → Holding (modify_loop f)
  unfolding modify_loop
  modify_loop-Holding f same = record {
    at = λ w h. untouched-Holds (f w.loop) w (λ t. same t w.loop) h;
  }

  pub outgoing_trade_offers-Holding :
      (g : EventLoop → Dict (PeerId × TradeOffer) (Bytes × FilePath))
      → Holding (modify_loop (λ s. record s { outgoing_trade_offers = g s }))
  outgoing_trade_offers-Holding g = modify_loop-Holding _ (same g)
    where
      same :
          (g : EventLoop → Dict (PeerId × TradeOffer) (Bytes × FilePath)) (t : Table)
          (s : EventLoop)
          → pending t (record s { outgoing_trade_offers = g s }) ≡ pending t s
      same g registering s = refl
      same g _ s = refl

  pub inbound_trade_offers-Holding :
      (g : EventLoop → Dict (PeerId × TradeOffer) (Unit {0}))
      → Holding (modify_loop (λ s. record s { inbound_trade_offers = g s }))
  inbound_trade_offers-Holding g = modify_loop-Holding _ (same g)
    where
      same :
          (g : EventLoop → Dict (PeerId × TradeOffer) (Unit {0})) (t : Table) (s : EventLoop)
          → pending t (record s { inbound_trade_offers = g s }) ≡ pending t s
      same g registering s = refl
      same g _ s = refl

  pub has_registered_username-Holding :
      (g : EventLoop → Bool)
      → Holding (modify_loop (λ s. record s { has_registered_username = g s }))
  has_registered_username-Holding g = modify_loop-Holding _ (same g)
    where
      same :
          (g : EventLoop → Bool) (t : Table) (s : EventLoop)
          → pending t (record s { has_registered_username = g s }) ≡ pending t s
      same g registering s = refl
      same g _ s = refl

  pub cookie-Holding :
      (g : EventLoop → Option Cookie) → Holding (modify_loop (λ s. record s { cookie = g s }))
  cookie-Holding g = modify_loop-Holding _ (same g)
    where
      same :
          (g : EventLoop → Option Cookie) (t : Table) (s : EventLoop)
          → pending t (record s { cookie = g s }) ≡ pending t s
      same g registering s = refl
      same g _ s = refl

  pub take_outgoing-Holding : (key : PeerId × TradeOffer) → Holding (take_outgoing key)
  unfolding take_outgoing
  take_outgoing-Holding key = record {
    at = λ w h. untouched-Holds _ w (elim [ registering ↦ refl | _ ↦ refl ]) h;
  }

  pub take_inbound-Holding : (key : PeerId × TradeOffer) → Holding (take_inbound key)
  unfolding take_inbound
  take_inbound-Holding key = record {
    at = λ w h. untouched-Holds _ w (elim [ registering ↦ refl | _ ↦ refl ]) h;
  }

  -- Goes on with what a table had: if that was the sender in question, `f` must take care of it.
  pub take_pending-Holding :
      (t : Table) (id : ℕ) (f : Option Sender → Handler (Unit {0}))
      → ((d : Option Sender) (w : World)
          → IsTracked w
          → HeldOr Z c w ⊎ (d ≡ some c)
          → Holds (f d w).1)
      → Holding (take_pending t id >>= f)
  unfolding take_pending ◌>>=◌
  take_pending-Holding t id f go_on = record {
    at = λ w h.
        go_on (Dict.get (pending t w.loop) id) (taken t id w) (taken-IsTracked t id w h.0)
          (taken-HeldOr t id w Z c h.1);
  }

  -- An attempted answer settles its sender.
  pub replied-Holds :
      (d : Sender) (v : Reply) (w : World)
      → IsTracked w
      → HeldOr Z c w ⊎ (some d ≡ some c)
      → Holds (log (replied d v) w)
  replied-Holds d v w tracked (inl held) = log-Holds _ w (tracked, held)
  replied-Holds d v w tracked (inr e) = (log-IsTracked _ w tracked, inr (inl (cc)))

  pub reply-Holds :
      (d : Sender) (v : Reply) (m : String) (w : World)
      → IsTracked w
      → HeldOr Z c w ⊎ (some d ≡ some c)
      → Holds (reply env d v m w).1
  unfolding reply attempt_or_panic attempt ◌>>=◌ expect
  reply-Holds d v m w tracked held = elim (Bool-cases (env.succeeds w.trace (replied d v))) [
    | inl e ↦ rw (e, ◌>>=◌, expect) (replied-Holds d v w tracked held)
    | inr e ↦ rw (e, ◌>>=◌, expect) (replied-Holds d v w tracked held)
  ]

  pub reply_to-Holds :
      (v : Reply) (m : String) (d : Option Sender) (w : World)
      → IsTracked w
      → HeldOr Z c w ⊎ (d ≡ some c)
      → Holds (reply_to env d v m w).1
  unfolding pure
  reply_to-Holds v m none w tracked (inl held) = (tracked, held)
  reply_to-Holds v m none w tracked (inr e) = cc
  reply_to-Holds v m (some d) w tracked held = reply-Holds d v m w tracked held

  pub reply_or-Holds :
      (v : Reply) (m : String) (otherwise : Handler (Unit {0}))
      → Holding otherwise
      → (d : Option Sender) (w : World) → IsTracked w
      → HeldOr Z c w ⊎ (d ≡ some c)
      → Holds (reply_or env d v m otherwise w).1
  reply_or-Holds v m otherwise next none w tracked (inl held) = next.at w (tracked, held)
  reply_or-Holds v m otherwise next none w tracked (inr e) = cc
  reply_or-Holds v m otherwise next (some d) w tracked held = reply-Holds d v m w tracked held
