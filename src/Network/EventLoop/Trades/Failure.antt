-- ===== src/Network/EventLoop/Trades/Failure.antt =====
-- What remains of a trade offer that could not be delivered.
use decent_share.Base.{◌≡◌, ◌≢◌, refl, ◌∷◌, none, some, err, String, ℕ, nat_eq, pair_eq}
use decent_share.Base.Dict
use decent_share.Base.Exec.{◌>>=◌}
use decent_share.Network.Message.{
  PeerId, Sender, Bytes, FilePath, offer_eq, delivered, outbound_failure,
}
use decent_share.Network.EventLoop.Env.{Env, replied}
use decent_share.Network.EventLoop.State.{World}
use decent_share.Network.EventLoop.Swarm.{take_pending}
use decent_share.Network.EventLoop.Commands.{handle_make_trade_offer}
use decent_share.Network.EventLoop.Behaviours.Trading.{handle_trade_offering_outbound_failure}
use decent_share.Network.EventLoop.Trades.Offers.{made, offered, reply-log}

module _ (env : Env) (o : String) (b : Bytes) (peer : PeerId) (r : String) (path : FilePath)
    (c : Sender) (w : World) where
  -- If an offer to another peer is made and the delivery of that offer then fails, its sender is told
  -- of the failure and waits no longer. The offer itself stays recorded, with the bytes and the path,
  -- so that a response from that peer is still met with the offered file.
  pub failed_offer_stays :
      (n : ℕ)
      → peer ≢ env.local_peer_id
      → let sent = (handle_make_trade_offer env o b peer r path c w).1 in
        let id = env.send_offer w.trace peer (made env o b peer r path c w) in
        let failed = (handle_trade_offering_outbound_failure env n id sent).1 in
        (failed.trace ≡ replied c (delivered (err (outbound_failure n))) ∷ sent.trace)
        × (Dict.get failed.loop.pending_trade_offer_request id ≡ none)
        × (Dict.get failed.loop.outgoing_trade_offers (peer, made env o b peer r path c w)
            ≡ some (b, path))
  unfolding handle_trade_offering_outbound_failure take_pending ◌>>=◌
  failed_offer_stays n other =
      rw
        (
          offered env o b peer r path c w other,
          Dict.get-insert_self w.loop.pending_trade_offer_request
              (env.send_offer w.trace peer (made env o b peer r path c w)) c,
          reply-log env c (delivered (err (outbound_failure n))) "Status receiver was dropped",
        )
        (
          refl,
          Dict.get-remove_self _ (env.send_offer w.trace peer (made env o b peer r path c w)),
          Dict.get-insert_self w.loop.outgoing_trade_offers (peer, made env o b peer r path c w)
              (b, path),
        )
