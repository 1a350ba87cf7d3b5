-- ===== src/Network/EventLoop/Registration/Bounds.antt =====
-- How often the user is asked to register: the events of `handle_kademlia_routing_updated`, against the
-- failures that `handle_put_record` reports.
use decent_share.Base.{
  ℕ, suc, ◌+◌, ◌≤◌, ◌≡◌, refl, [], ◌∷◌, List, Bool, true, false, Option, none, some, String, Result,
  ok, err, if◌then◌else◌, arith, nat_eq,
}
use decent_share.Base.Dict.{Dict}
use decent_share.Base.Exec.{◌>>=◌, gets, expect}
use decent_share.Base.Exec.Keeps.{Keeps, Keeps-bind}
use decent_share.Network.Message.{
  PeerId, Sender, PutRecordError, request, registered, registration_request, make_trade_offer,
  respond_trade, direct_message,
}
use decent_share.Network.EventLoop.Env.{Env, Act, Trace, event_sent, replied}
use decent_share.Network.EventLoop.State.{World, Table, registering, new, start, with_pending}
use decent_share.Network.EventLoop.Swarm.{attempt, attempt_or_panic, reply, send_event, modify_loop}
use decent_share.Network.EventLoop.Behaviours.Kademlia.{
  finish_registration, handle_put_record, request_registration, handle_kademlia_routing_updated,
}
use decent_share.Network.EventLoop.Run
use decent_share.Network.EventLoop.Run.{Input, run}
use decent_share.Network.EventLoop.Invariants.{Frame, IsPlain, take_pending-Keeps, frame_rules}
use decent_share.Network.EventLoop.Invariants.Handlers.{Own}
use decent_share.Network.EventLoop.Invariants.Own.{
  handle_make_trade_offer-Keeps, handle_respond_trade-Keeps, handle_direct_message-Keeps,
  handle_trade_offering-Keeps, handle_trade_response-Keeps,
}
use decent_share.Network.EventLoop.Invariants.Steps.{run-Keeps}

module _ (env : Env) where
  -- The requests for registration that reached the user's task.
  abbrev pub asks : Trace → Act → ℕ
  asks t (event_sent (registration_request u)) =
      if env.succeeds t (event_sent (registration_request u)) then 1 else 0
  asks t _ = 0

  abbrev pub requests : Trace → ℕ
  requests [] = 0
  requests (a ∷ t) = asks t a + requests t

-- The failures of registrations that were reported to the senders that waited for them.
abbrev pub fails : Act → ℕ
fails (replied _ (registered (err _))) = 1
fails _ = 0

abbrev pub failures : Trace → ℕ
failures [] = 0
failures (a ∷ t) = fails a + failures t

-- What may still be asked for without a further failure.
abbrev left : Bool → ℕ
left true = 0
left false = 1

module _ (env : Env) where
  abbrev IsBounded : World → Type 0
  IsBounded w = requests env w.trace + left w.loop.has_registered_username ≤ suc (failures w.trace)

  abbrev AsksNothing : Act → Type 0
  AsksNothing a = (t : Trace) → asks env t a ≡ 0

  plain-AsksNothing : (a : Act) → IsPlain a → AsksNothing a
  plain-AsksNothing (event_sent (registration_request u)) h t = absurd h
  plain-AsksNothing _ h t = refl

  senders_kept :
      (t : Table) (d : Dict ℕ Sender) (w : World)
      → IsBounded w
      → IsBounded (record w { loop = with_pending t d w.loop })
  senders_kept registering d w h = h
  senders_kept _ d w h = h

  bounded : Frame IsBounded AsksNothing
  bounded = record {
    plain = plain-AsksNothing;
    logged = λ a w free h. let none_asked = free w.trace in omega arith;
    senders = senders_kept;
    cookies = λ k w h. h;
    discovers = λ k p w e h. omega arith;
    registers = λ p w e h. omega arith;
  }

  -- A failure makes room for the request that the flag then allows.
  finish-Keeps :
      (c : Option Sender) (result : Result (Unit {0}) PutRecordError)
      → Keeps IsBounded (finish_registration env c result)
  unfolding finish_registration modify_loop reply attempt_or_panic attempt expect ◌>>=◌
  finish-Keeps none result = search frame_rules
  finish-Keeps (some c) (ok tt) = record { at = λ w h. ground arith }
  finish-Keeps (some c) (err e) = record { at = λ w h. ground arith }

  request-Keeps :
      (u : String) (w : World)
      → IsBounded w
      → (b : Bool) → w.loop.has_registered_username ≡ b
      → IsBounded (request_registration env b u w).1
  unfolding request_registration modify_loop send_event attempt_or_panic attempt expect ◌>>=◌
  request-Keeps u w h true e = h
  request-Keeps u w h false e = ground (arith, (rw e at h))

  own : (i : Input) → Own env IsBounded i
  own (Run.command (make_trade_offer o b p r f c)) =
      handle_make_trade_offer-Keeps bounded env (λ d w h. h) o b p r f c (λ other id t. refl)
  own (Run.command (respond_trade p r o b c)) =
      handle_respond_trade-Keeps bounded env (λ d w h. h) p r o b c (λ a e id t. refl)
  own (Run.command (direct_message p m c)) =
      handle_direct_message-Keeps bounded env p m c (λ other id t. refl)
  own (Run.event (Run.put_record_progressed id result)) =
      unfold handle_put_record in
      Keeps-bind _ _ (take_pending-Keeps bounded registering id) (λ c. finish-Keeps c result)
  own (Run.event Run.routing_updated) =
      unfold handle_kademlia_routing_updated gets ◌>>=◌ in
      record { at = λ w h. request-Keeps w.loop.username w h w.loop.has_registered_username refl }
  own (Run.event (Run.trade_offering_message p (request o k))) =
      handle_trade_offering-Keeps bounded env (λ d w h. h) o k p (λ t. refl)
  own (Run.event (Run.trade_response_message p (request r k))) =
      handle_trade_response-Keeps bounded env (λ d w h. h) r k p (λ a t. refl)
  own _ = tt

  -- From the start of the event loop on, and whatever comes in whatever order, the user's task is
  -- asked to register at most once more often than a registration failed. In particular it is asked at
  -- most once until one fails.
  pub requests-le-failures :
      (username : String) (rendezvous_peer_id : Option PeerId) (inputs : List Input)
      → let t = (run env inputs (start (new username rendezvous_peer_id))).1.trace in
        requests env t ≤ suc (failures t)
  unfolding new
  requests-le-failures username rendezvous_peer_id inputs =
      let kept =
        (run-Keeps bounded env own inputs).at (start (new username rendezvous_peer_id))
          (omega arith) in
      omega arith
