-- ===== src/Network/EventLoop/Traces/Steps.antt =====
-- The acts on offers, answers, direct messages and registrations, in their handlers and over the runs
-- of the event loop.
use decent_share.Base.{List, Option, none, some, nat_eq, arith}
use decent_share.Base.Exec.{◌>>=◌}
use decent_share.Base.Exec.Keeps.{Keeps, Keeps-bind, Keeps-then}
use decent_share.Network.Message.{
  PeerId, Bytes, FilePath, TradeResponse, Channel, request, make_trade_offer, respond_trade,
  direct_message,
}
use decent_share.Network.EventLoop.Env.{
  Env, Act, Trace, offer_sent, message_sent, response_answered,
}
use decent_share.Network.EventLoop.State.{World}
use decent_share.Network.EventLoop.Swarm.{attempt_or_panic, attempt, take_outgoing}
use decent_share.Network.EventLoop.Behaviours.Trading.{
  create_parents, exchange, complete_trade, handle_trade_response_message,
}
use decent_share.Network.EventLoop.Run
use decent_share.Network.EventLoop.Run.{Input, run}
use decent_share.Network.EventLoop.Invariants.{Frame, IsPlain, frame_rules}
use decent_share.Network.EventLoop.Invariants.Handlers.{Own}
use decent_share.Network.EventLoop.Invariants.Own.{
  handle_make_trade_offer-Keeps, handle_respond_trade-Keeps, handle_direct_message-Keeps,
  handle_put_record-Keeps, handle_kademlia_routing_updated-Keeps, handle_trade_offering-Keeps,
}
use decent_share.Network.EventLoop.Invariants.Steps.{run-Keeps}
use decent_share.Network.EventLoop.Traces.{Permitted, IsDisciplined}

module _ (env : Env) where
  abbrev IsFree : Act → Type 0
  IsFree a = (t : Trace) → Permitted env t a

  plain-IsFree : (a : Act) → IsPlain a → IsFree a
  plain-IsFree (offer_sent peer o id) h t = absurd h
  plain-IsFree (message_sent peer m id) h t = absurd h
  plain-IsFree (response_answered channel r) h t = absurd h
  plain-IsFree _ h t = tt

  disciplined : Frame (IsDisciplined env) IsFree
  disciplined = record {
    plain = plain-IsFree;
    logged = λ a w free h. (free w.trace, h);
    senders = λ t d w h. h;
    cookies = λ k w h. h;
    discovers = λ k p w e h. (tt, h);
    registers = λ p w e h. (tt, h);
  }

  create_parents-Keeps : (p : Option FilePath) → Keeps (IsDisciplined env) (create_parents env p)
  unfolding create_parents
  create_parents-Keeps none = search frame_rules
  create_parents-Keeps (some p) = search (frame_rules, disciplined)

  -- With no file for us, none goes out; else ours was written in the act before.
  answer-Keeps :
      (r : TradeResponse) (file : Option Bytes) (b : Bytes) (path : FilePath) (channel : Channel)
      → Keeps (IsDisciplined env) (do
        answer ← exchange env file b path
        attempt_or_panic env
            (response_answered channel (record {
              offered_file_name = r.offered_file_name;
              requested_file_name = r.requested_file_name;
              offered_file_bytes = answer;
            }))
            "Connection to peer was dropped")
  unfolding exchange attempt_or_panic attempt ◌>>=◌
  answer-Keeps r none b path channel = record { at = λ w h. ground arith }
  answer-Keeps r (some file) b path channel = record {
    at = λ w h. ground (arith, (create_parents-Keeps (env.parent path)).at w h);
  }

  complete_trade-Keeps :
      (entry : Option (Bytes × FilePath)) (r : TradeResponse) (channel : Channel) (peer : PeerId)
      → Keeps (IsDisciplined env) (complete_trade env entry r channel peer)
  unfolding complete_trade
  complete_trade-Keeps none r channel peer = search frame_rules
  complete_trade-Keeps (some (b, path)) r channel peer =
      Keeps-then _ _ (search (frame_rules, disciplined))
        (answer-Keeps r r.requested_file_bytes b path channel)

  respond-Keeps :
      (r : TradeResponse) (k : Channel) (peer : PeerId)
      → Keeps (IsDisciplined env) (handle_trade_response_message env (request r k) peer)
  unfolding handle_trade_response_message take_outgoing
  respond-Keeps r k peer =
      Keeps-bind _ _ (record { at = λ w h. h }) (λ entry. complete_trade-Keeps entry r k peer)

  own : (i : Input) → Own env (IsDisciplined env) i
  own (Run.command (make_trade_offer o b p r f c)) =
      handle_make_trade_offer-Keeps disciplined env (λ d w h. h) o b p r f c (λ other id t. other)
  own (Run.command (respond_trade p r o b c)) =
      handle_respond_trade-Keeps disciplined env (λ d w h. h) p r o b c (λ a e id t. tt)
  own (Run.command (direct_message p m c)) =
      handle_direct_message-Keeps disciplined env p m c (λ other id t. other)
  own (Run.event (Run.put_record_progressed id result)) =
      handle_put_record-Keeps disciplined env (λ b w h. h) result id (λ c t. tt)
  own (Run.event Run.routing_updated) =
      handle_kademlia_routing_updated-Keeps disciplined env (λ b w h. h) (λ u t. tt)
  own (Run.event (Run.trade_offering_message p (request o k))) =
      handle_trade_offering-Keeps disciplined env (λ d w h. h) o k p (λ t. tt)
  own (Run.event (Run.trade_response_message p (request r k))) = respond-Keeps r k p
  own _ = tt

  -- If all acts so far are permitted, then whatever commands and events the event loop takes, in any
  -- order and against any environment, every act of its trace is permitted: each trade offer and each
  -- direct message goes to a peer other than itself, and each answer that carries an offered file
  -- stands directly after the successful writing of a file. This holds also where a handler panics.
  pub run-IsDisciplined :
      (inputs : List Input) (w : World)
      → IsDisciplined env w
      → IsDisciplined env (run env inputs w).1
  run-IsDisciplined inputs w h = (run-Keeps disciplined env own inputs).at w h
