-- ===== src/Network/EventLoop/Trades/Machine.antt =====
-- One outgoing offer as a state machine, and the event loop as an implementation of it.
use decent_share.Base.{
  ◌≡◌, refl, sym, subst, [], ◌∷◌, ℕ, zero, suc, List, Option, none, some, String, Bool-cases, inl,
  inr, ◌==◌, nat_eq, pair_eq, if◌then◌else◌, arith,
}
use decent_share.Base.Dict
use decent_share.Base.Dict.{Dict}
use decent_share.Base.Exec.{Outcome, returned, panicked, continue, ◌>>=◌}
use decent_share.Network.Message.{
  PeerId, Sender, Bytes, FilePath, Channel, TradeOffer, TradeResponse, offer_eq, request,
  make_trade_offer, respond_trade, direct_message,
}
use decent_share.Network.EventLoop.Env.{Env}
use decent_share.Network.EventLoop.State.{World, Table, registering, with_pending}
use decent_share.Network.EventLoop.Commands.{handle_make_trade_offer, handle_command}
use decent_share.Network.EventLoop.Behaviours.Trading.{handle_trade_response_message}
use decent_share.Network.EventLoop.Run
use decent_share.Network.EventLoop.Run.{Input, SwarmEvent, handle_event, step, run}
use decent_share.Network.EventLoop.Invariants.{Frame}
use decent_share.Network.EventLoop.Invariants.Handlers.{Own}
use decent_share.Network.EventLoop.Invariants.Own.{
  handle_respond_trade-Keeps, handle_direct_message-Keeps, handle_put_record-Keeps,
  handle_kademlia_routing_updated-Keeps, handle_trade_offering-Keeps,
}
use decent_share.Network.EventLoop.Invariants.Steps.{step-Keeps}
use decent_share.Network.EventLoop.Trades.{offer_of, withdrawn}
use decent_share.Network.EventLoop.Trades.Offers.{made, offered, refused}

-- What is recorded for an offer: the offered bytes, and the path for the requested file.
abbrev pub Entry : Type 0
Entry = Option (Bytes × FilePath)

-- What may happen to the offer: it is made, with bytes and a path, or it is answered; all else is idle.
pub data Label : Type 0 where
  made_with : Bytes × FilePath → Label
  answered idle : Label

-- The machine: an offer that is made is open, whatever it was before; one that is answered is closed.
pub data Deal : Entry → Label → Entry → Type 0 where
  opens : {e : Entry} (v : Bytes × FilePath) → Deal e (made_with v) (some v)
  closes : {e : Entry} → Deal e answered none
  idles : {e : Entry} → Deal e idle e

pub data Deals : Entry → List Label → Entry → Type 0 where
  done : {e : Entry} → Deals e [] e
  then_ :
      {e f g : Entry} {l : Label} {ls : List Label} → Deal e l f → Deals f ls g → Deals e (l ∷ ls) g

-- The first labels of a list.
abbrev pub take : ℕ → List Label → List Label
take zero ls = []
take (suc n) [] = []
take (suc n) (l ∷ ls) = l ∷ take n ls

module _ (env : Env) (key : PeerId × TradeOffer) where
  -- What an input means for the offer `key`.
  abbrev pub label : Input → Label
  label (Run.command (make_trade_offer o b peer r path c)) =
      if peer == env.local_peer_id
      then idle
      else if (peer, record { offered_file_name = o; requested_file_name = r }) == key
      then made_with (b, path)
      else idle
  label (Run.event (Run.trade_response_message peer (request r k))) =
      if (peer, offer_of r) == key then answered else idle
  label _ = idle

  -- The inputs that the loop takes: those before the end of the commands.
  abbrev pub labels : List Input → List Label
  labels [] = []
  labels (Run.commands_closed ∷ inputs) = []
  labels (i ∷ inputs) = label i ∷ labels inputs

  abbrev pub entry : World → Entry
  entry w = Dict.get w.loop.outgoing_trade_offers key

  module _ (e : Entry) where
    abbrev IsEntry : World → Type 0
    IsEntry w = entry w ≡ e

    senders_kept :
        (t : Table) (d : Dict ℕ Sender) (w : World)
        → IsEntry w
        → IsEntry (record w { loop = with_pending t d w.loop })
    senders_kept registering d w h = h
    senders_kept _ d w h = h

    unchanged : Frame IsEntry (λ a. Unit {0})
    unchanged = record {
      plain = λ a h. tt;
      logged = λ a w free h. h;
      senders = senders_kept;
      cookies = λ k w h. h;
      discovers = λ k p w e h. h;
      registers = λ p w e h. h;
    }

  make-Deal :
      (o : String) (b : Bytes) (peer : PeerId) (r : String) (path : FilePath) (c : Sender)
      (w : World)
      → Deal
          (entry w)
          (label (Run.command (make_trade_offer o b peer r path c)))
          (entry (handle_make_trade_offer env o b peer r path c w).1)
  make-Deal o b peer r path c w = elim (Bool-cases (peer == env.local_peer_id)) [
    | inl e ↦ rw (e, refused env o b peer r path c w ((nat_eq.beq_iff _ _).0 e)) idles
    | inr e ↦
        rw (e, offered env o b peer r path c w (ground arith))
          (elim (Bool-cases ((peer, made env o b peer r path c w) == key)) [
            | inl f ↦
                rw
                  (Dict.get-insert w.loop.outgoing_trade_offers (peer, made env o b peer r path c w)
                    key (b, path))
                  (rw f (opens (b, path)))
            | inr f ↦
                rw
                  (Dict.get-insert w.loop.outgoing_trade_offers (peer, made env o b peer r path c w)
                    key (b, path))
                  (rw f idles)
          ])
  ]

  respond-Deal :
      (r : TradeResponse) (k : Channel) (peer : PeerId) (w : World)
      → Deal
          (entry w)
          (label (Run.event (Run.trade_response_message peer (request r k))))
          (entry (handle_trade_response_message env (request r k) peer w).1)
  respond-Deal r k peer w =
      rw
        (
          withdrawn env r k peer w,
          Dict.get-remove w.loop.outgoing_trade_offers (peer, offer_of r) key,
        )
        (elim (Bool-cases ((peer, offer_of r) == key)) [ inl f ↦ rw f closes | inr f ↦ rw f idles ])

  -- Every other input leaves the offer alone.
  kept :
      (i : Input)
      → ((e : Entry) → Own env (IsEntry e) i)
      → (w : World) → Deal (entry w) idle (entry (step env i w).1)
  kept i own w =
      subst (λ e. Deal (entry w) idle e)
        (sym ((step-Keeps (unchanged (entry w)) env i (own (entry w))).at w refl)) idles

  step-Deal : (i : Input) (w : World) → Deal (entry w) (label i) (entry (step env i w).1)
  step-Deal (Run.command (make_trade_offer o b peer r path c)) w =
      unfold step handle_command in make-Deal o b peer r path c w
  step-Deal (Run.event (Run.trade_response_message peer (request r k))) w =
      unfold step handle_event in respond-Deal r k peer w
  step-Deal (Run.command (respond_trade p r o b c)) w =
      kept _
        (λ e. handle_respond_trade-Keeps (unchanged e) env (λ d w h. h) p r o b c (λ a e id. tt)) w
  step-Deal (Run.command (direct_message p m c)) w =
      kept _ (λ e. handle_direct_message-Keeps (unchanged e) env p m c (λ other id. tt)) w
  step-Deal (Run.event (Run.put_record_progressed id result)) w =
      kept _ (λ e. handle_put_record-Keeps (unchanged e) env (λ b w h. h) result id (λ c. tt)) w
  step-Deal (Run.event Run.routing_updated) w =
      kept _ (λ e. handle_kademlia_routing_updated-Keeps (unchanged e) env (λ b w h. h) (λ u. tt)) w
  step-Deal (Run.event (Run.trade_offering_message p (request o k))) w =
      kept _ (λ e. handle_trade_offering-Keeps (unchanged e) env (λ d w h. h) o k p tt) w
  step-Deal i w = kept i (λ e. tt) w

  -- The rounds of a run: one for each input, up to a panic or to the end of the commands.
  abbrev pub rounds_after : Outcome (Unit {0}) → ℕ → ℕ
  rounds_after (returned tt) n = suc n
  rounds_after (panicked message) n = 1

  pub rounds : List Input → World → ℕ
  rounds [] w = 0
  rounds (Run.commands_closed ∷ is) w = 0
  rounds (i ∷ is) w = rounds_after (step env i w).0 (rounds is (step env i w).1)

  rest-Deals :
      (r : Outcome (Unit {0})) (i : Input) (is : List Input) (w v : World)
      → Deal (entry w) (label i) (entry v)
      → Deals (entry v) (take (rounds is v) (labels is)) (entry (run env is v).1)
      → Deals
          (entry w)
          (take (rounds_after r (rounds is v)) (label i ∷ labels is))
          (entry (continue r (λ _. run env is) v).1)
  rest-Deals (returned tt) i is w v d ds = then_ d ds
  rest-Deals (panicked message) i is w v d ds = then_ d done

  -- For every offer, the event loop refines the machine: over any run, from any state, and also where a
  -- handler panics, the recorded offer goes through steps of the machine, and the labels of these
  -- steps are those of the inputs that had a round, in their order. So an offer is opened only by the command that makes
  -- it to another peer, with the bytes and the path of that command, and is closed only by a response of
  -- that peer with both file names; no other command, event or tick changes it.
  pub run-Refines :
      (inputs : List Input) (w : World)
      → Deals (entry w) (take (rounds inputs w) (labels inputs)) (entry (run env inputs w).1)
  unfolding run rounds ◌>>=◌
  run-Refines [] w = done
  run-Refines (Run.commands_closed ∷ is) w = done
  run-Refines (Run.event e ∷ is) w =
      rest-Deals (step env (Run.event e) w).0 (Run.event e) is w _ (step-Deal (Run.event e) w)
        (run-Refines is (step env (Run.event e) w).1)
  run-Refines (Run.command c ∷ is) w =
      rest-Deals (step env (Run.command c) w).0 (Run.command c) is w _ (step-Deal (Run.command c) w)
        (run-Refines is (step env (Run.command c) w).1)
  run-Refines (Run.tick ∷ is) w =
      rest-Deals (step env Run.tick w).0 Run.tick is w _ (step-Deal Run.tick w)
        (run-Refines is (step env Run.tick w).1)
