-- ===== src/Network/EventLoop/Trades.antt =====
-- What a trade does, step by step: `handle_trade_response_message` of behaviour_handlers.rs.
mod Untouched
pub mod Offers
pub mod Swap
pub mod Failure
pub mod Machine
pub mod Paid
pub mod Invited
pub mod Sources
use Untouched.{complete_trade-LoopIs}
use decent_share.Base.Exec.Keeps.{Keeps}
use decent_share.Base.{
  ◌≡◌, ◌≢◌, refl, ◌∷◌, [], ◌++◌, Option, none, some, ◌==◌, nat_eq, pair_eq, arith, if◌then◌else◌,
  true, false, Bool-cases, Option-cases, err, is_some, String, List,
}
use decent_share.Base.Exec.{returned, ◌>>=◌, expect}
use decent_share.Base.Dict
use decent_share.Network.Message.{
  PeerId, Sender, Channel, Bytes, FilePath, TradeOffer, TradeResponse, offer_eq, request,
  inbound_trade_response, bytes_received, no_valid_trade,
}
use decent_share.Network.EventLoop.Env.{
  Env, Act, Trace, offer_sent, response_answered, event_sent, file_written, directories_created,
  replied,
}
use decent_share.Network.EventLoop.State.{World}
use decent_share.Network.EventLoop.Swarm.{
  take_outgoing, take_inbound, attempt, attempt_or_panic, send_event, reply, put_pending,
  send_offer, send_response, modify_loop,
}
use decent_share.Network.EventLoop.Commands.{
  handle_make_trade_offer, refuse_trade, await_response, handle_respond_trade,
}
use decent_share.Network.EventLoop.Behaviours.Trading.{
  create_parents, exchange, complete_trade, handle_trade_response_message,
}

-- Every act that may fail succeeds.
abbrev pub IsCooperative : Env → Type 0
IsCooperative env = (t : Trace) (a : Act) → env.succeeds t a ≡ true

-- The offer that a response names.
abbrev pub offer_of : TradeResponse → TradeOffer
offer_of r = record {
  offered_file_name = r.offered_file_name;
  requested_file_name = r.requested_file_name;
}

-- The acts, newest first, with which a response to an offer of ours is met: the user is told; if the
-- response brings the requested file, the directories above the path are made and the file is
-- written; the answer carries the offered file exactly then.
abbrev pub parents_made : Option FilePath → Trace
parents_made none = []
parents_made (some directory) = directories_created directory ∷ []

abbrev pub files_exchanged : Env → Option Bytes → FilePath → Trace
files_exchanged env none path = []
files_exchanged env (some file) path = file_written path file ∷ parents_made (env.parent path)

abbrev pub answer_with : TradeResponse → Channel → Option Bytes → Act
answer_with r channel file = response_answered channel (record {
  offered_file_name = r.offered_file_name;
  requested_file_name = r.requested_file_name;
  offered_file_bytes = file;
})

abbrev pub in_return : Option Bytes → Bytes → Option Bytes
in_return none offered = none
in_return (some file) offered = some offered

abbrev pub exchange_acts : Env → TradeResponse → Channel → PeerId → Bytes → FilePath → Trace
exchange_acts env r channel peer offered path =
    answer_with r channel (in_return r.requested_file_bytes offered)
    ∷ (files_exchanged env r.requested_file_bytes path
        ++ (event_sent (
              inbound_trade_response peer r.offered_file_name r.requested_file_name
                (is_some r.requested_file_bytes))
            ∷ []))

module _ (env : Env) (cooperative : IsCooperative env) where
  complete_trade_acts :
      (r : TradeResponse) (file : Option Bytes) (channel : Channel) (peer : PeerId)
      (offered : Bytes) (path : FilePath) (parent : Option FilePath) (w : World)
      → r.requested_file_bytes ≡ file
      → env.parent path ≡ parent
      → complete_trade env (some (offered, path)) r channel peer w ≡ (
        returned tt,
        record w { trace = exchange_acts env r channel peer offered path ++ w.trace },
      )
  unfolding complete_trade send_event attempt_or_panic attempt ◌>>=◌ exchange create_parents expect
  complete_trade_acts r none channel peer offered path parent w e p = simp (e, cooperative)
  complete_trade_acts r (some file) channel peer offered path none w e p = simp (e, p, cooperative)
  complete_trade_acts r (some file) channel peer offered path (some directory) w e p =
      simp (e, p, cooperative)

  -- Where every act succeeds, a response to an offer that we made to this peer has exactly the acts
  -- above, with the file and the path of the offer, and the offer is withdrawn. So the offered file
  -- is in the answer if and only if the response brought the requested one, which was written first.
  pub trade_response_honoured :
      (r : TradeResponse) (channel : Channel) (peer : PeerId) (w : World) {offered : Bytes}
      {path : FilePath}
      → Dict.get w.loop.outgoing_trade_offers (peer, offer_of r) ≡ some (offered, path)
      → handle_trade_response_message env (request r channel) peer w ≡ (
        returned tt,
        record {
          loop = record (w.loop) {
            outgoing_trade_offers = Dict.remove w.loop.outgoing_trade_offers (peer, offer_of r);
          };
          trace = exchange_acts env r channel peer offered path ++ w.trace;
        },
      )
  unfolding handle_trade_response_message take_outgoing ◌>>=◌
  trade_response_honoured r channel peer w {offered} {path} e = rw e (
      complete_trade_acts r r.requested_file_bytes channel peer offered path (env.parent path) _
        refl refl)

-- A response that matches no offer of ours to that peer does nothing to the surroundings: no file is
-- written, the user is not told, and no answer goes out.
module _ (env : Env) where
  trade_response_ignored :
      (r : TradeResponse) (channel : Channel) (peer : PeerId) (w : World)
      → Dict.get w.loop.outgoing_trade_offers (peer, offer_of r) ≡ none
      → (handle_trade_response_message env (request r channel) peer w).1.trace ≡ w.trace
  unfolding handle_trade_response_message take_outgoing ◌>>=◌ complete_trade
  trade_response_ignored r channel peer w e = rw e

  pub withdrawn :
      (r : TradeResponse) (c : Channel) (peer : PeerId) (w : World)
      → (handle_trade_response_message env (request r c) peer w).1.loop ≡ record (w.loop) {
        outgoing_trade_offers = Dict.remove w.loop.outgoing_trade_offers (peer, offer_of r);
      }
  unfolding handle_trade_response_message take_outgoing ◌>>=◌
  withdrawn r c peer w = (complete_trade-LoopIs env _ _ r c peer).at _ refl

  -- After a first response to an offer, which may have ended in a panic, any further response from
  -- that peer with the same two file names, whatever bytes it brings, leaves the trace as it was.
  pub trade_response_once :
      (r s : TradeResponse) (c d : Channel) (peer : PeerId) (w : World)
      → offer_of s ≡ offer_of r
      → let first = (handle_trade_response_message env (request r c) peer w).1 in
        (handle_trade_response_message env (request s d) peer first).1.trace ≡ first.trace
  trade_response_once r s c d peer w e = trade_response_ignored s d peer _ (
      rw (withdrawn r c peer w, e)
        (Dict.get-remove_self w.loop.outgoing_trade_offers (peer, offer_of r)))
