-- ===== src/Network/EventLoop/Rendezvous/Server.antt =====
-- Which peer the event loop takes for the rendezvous server.
use decent_share.Base.{◌≡◌, refl, sym, ◌∙◌, ℕ, List, Option, some, String}
use decent_share.Base.Dict.{Dict}
use decent_share.Network.Message.{
  PeerId, Sender, request, make_trade_offer, respond_trade, direct_message,
}
use decent_share.Network.EventLoop.Env.{Env, Act, Trace, discovered, registered_at}
use decent_share.Network.EventLoop.State.{
  World, Table, new, start, with_pending, registering, messages, peer_ids, usernames, trade_offers,
  trade_responses,
}
use decent_share.Network.EventLoop.Run
use decent_share.Network.EventLoop.Run.{Input, run}
use decent_share.Network.EventLoop.Invariants.{Frame, IsPlain}
use decent_share.Network.EventLoop.Invariants.Handlers.{Own}
use decent_share.Network.EventLoop.Invariants.Own.{
  handle_make_trade_offer-Keeps, handle_respond_trade-Keeps, handle_direct_message-Keeps,
  handle_put_record-Keeps, handle_kademlia_routing_updated-Keeps, handle_trade_offering-Keeps,
  handle_trade_response-Keeps,
}
use decent_share.Network.EventLoop.Invariants.Steps.{run-Keeps}
use decent_share.Network.EventLoop.Traces.{Every}

module _ (env : Env) (server : Option PeerId) where
  -- A registration at a peer, or a request for the peers it knows, goes to the server.
  abbrev pub IsAtServer : Trace → Act → Type 0
  IsAtServer t (discovered k p) = server ≡ some p
  IsAtServer t (registered_at p) = server ≡ some p
  IsAtServer t _ = Unit

  abbrev IsKnown : World → Type 0
  IsKnown w = (w.loop.rendezvous_peer_id ≡ server) × Every IsAtServer w.trace

  abbrev IsFree : Act → Type 0
  IsFree a = (t : Trace) → IsAtServer t a

  plain-IsFree : (a : Act) → IsPlain a → IsFree a
  plain-IsFree (discovered k p) h t = absurd h
  plain-IsFree (registered_at p) h t = absurd h
  plain-IsFree _ h t = tt

  senders_kept :
      (t : Table) (d : Dict ℕ Sender) (w : World)
      → IsKnown w
      → IsKnown (record w { loop = with_pending t d w.loop })
  senders_kept registering d w h = h
  senders_kept messages d w h = h
  senders_kept peer_ids d w h = h
  senders_kept usernames d w h = h
  senders_kept trade_offers d w h = h
  senders_kept trade_responses d w h = h

  known : Frame IsKnown IsFree
  known = record {
    plain = plain-IsFree;
    logged = λ a w free h. (h.0, (free w.trace, h.1));
    senders = senders_kept;
    cookies = λ k w h. h;
    discovers = λ k p w e h. (h.0, (sym h.0 ∙ e, h.1));
    registers = λ p w e h. (h.0, (sym h.0 ∙ e, h.1));
  }

  own : (i : Input) → Own env IsKnown i
  own (Run.command (make_trade_offer o b p r f c)) =
      handle_make_trade_offer-Keeps known env (λ d w h. h) o b p r f c (λ other id t. tt)
  own (Run.command (respond_trade p r o b c)) =
      handle_respond_trade-Keeps known env (λ d w h. h) p r o b c (λ r e id t. tt)
  own (Run.command (direct_message p m c)) =
      handle_direct_message-Keeps known env p m c (λ other id t. tt)
  own (Run.event (Run.put_record_progressed id result)) =
      handle_put_record-Keeps known env (λ b w h. h) result id (λ c t. tt)
  own (Run.event Run.routing_updated) =
      handle_kademlia_routing_updated-Keeps known env (λ b w h. h) (λ u t. tt)
  own (Run.event (Run.trade_offering_message p (request o k))) =
      handle_trade_offering-Keeps known env (λ d w h. h) o k p (λ t. tt)
  own (Run.event (Run.trade_response_message p (request r k))) =
      handle_trade_response-Keeps known env (λ d w h. h) r k p (λ file t. tt)
  own _ = tt

  -- From the start of the event loop on, and whatever comes in whatever order: the peer registers at no
  -- other peer than the rendezvous server it was started with, and asks no other for the peers it knows. So
  -- a peer that was started without one never registers and never asks.
  pub run-IsAtServer :
      (username : String) (inputs : List Input)
      → Every IsAtServer (run env inputs (start (new username server))).1.trace
  unfolding new
  run-IsAtServer username inputs =
      ((run-Keeps known env own inputs).at (start (new username server)) (refl, tt)).1
