-- ===== src/Network/EventLoop/Rendezvous.antt =====
-- What `handle_rendezvous_discovered` does with the peers that the rendezvous server names.
pub mod Server
use decent_share.Base.{◌≡◌, ◌≢◌, refl, List, [], ◌∷◌, ◌++◌, nat_eq, ==-refl, ==-ne, ◌∙◌}
use decent_share.Base.Exec.{pure, returned, ◌>>=◌, expect}
use decent_share.Network.Message.{PeerId, Multiaddr}
use decent_share.Network.EventLoop.Env.{Env, Trace, dialled, address_added, explicit_peer_added}
use decent_share.Network.EventLoop.State.{World}
use decent_share.Network.EventLoop.Swarm.{act, attempt, attempt_or_panic}
use decent_share.Network.EventLoop.Behaviours.Discovery.{
  Registration, dial_all, discover_all, full_address,
}
use decent_share.Network.EventLoop.Trades.{IsCooperative}

-- The acts, newest first, for one registration: each address is dialled and added to the routing
-- table, and the peer is added to the chat.
abbrev pub dial_acts : Env → PeerId → List Multiaddr → Trace → Trace
dial_acts env peer [] t = t
dial_acts env peer (a ∷ addresses) t =
    dial_acts env peer addresses (address_added peer a ∷ dialled (full_address env peer a) ∷ t)

abbrev pub join_acts : Env → List Registration → Trace → Trace
join_acts env [] t = t
join_acts env (r ∷ rs) t =
    join_acts env rs (explicit_peer_added r.peer_id ∷ dial_acts env r.peer_id r.addresses t)

abbrev pub AllOthers : Env → List Registration → Type 0
AllOthers env [] = Unit
AllOthers env (r ∷ rs) = (r.peer_id ≢ env.local_peer_id) × AllOthers env rs

module _ (env : Env) where
  discover_self :
      (self : Registration) (after : List Registration) (w : World)
      → self.peer_id ≡ env.local_peer_id
      → discover_all env (self ∷ after) w ≡ (returned tt, w)
  unfolding discover_all pure
  discover_self self after w e = rw (e, ==-refl env.local_peer_id)

  module _ (cooperative : IsCooperative env) where
    dial_all_lem :
        (peer : PeerId) (addresses : List Multiaddr) (w : World)
        → dial_all env peer addresses w
          ≡ (returned tt, record w { trace = dial_acts env peer addresses w.trace })
    unfolding dial_all attempt_or_panic attempt expect act ◌>>=◌
    dial_all_lem peer [] w = refl
    dial_all_lem peer (a ∷ addresses) w = simp cooperative (dial_all_lem peer addresses _)

    discover_all_lem :
        (before : List Registration) (rest : List Registration) (w : World)
        → AllOthers env before
        → discover_all env (before ++ rest) w
          ≡ discover_all env rest (record w { trace = join_acts env before w.trace })
    unfolding discover_all act ◌>>=◌
    discover_all_lem [] rest w h = refl
    discover_all_lem (r ∷ rs) rest w (other, h) =
        rw (==-ne r.peer_id env.local_peer_id other)
          (rw (dial_all_lem r.peer_id r.addresses w, ◌>>=◌) (discover_all_lem rs rest _ h))

    -- Where every act succeeds, the loop over the registrations stops at the first that is the peer's
    -- own: those before it are dialled and
    -- joined, one after the other, and those after it are left out, whatever they are. So a peer that
    -- is listed after this one is not met through this message.
    pub discover_stops_at_self :
        (before : List Registration) (self : Registration) (after : List Registration) (w : World)
        → AllOthers env before
        → self.peer_id ≡ env.local_peer_id
        → discover_all env (before ++ (self ∷ after)) w
          ≡ (returned tt, record w { trace = join_acts env before w.trace })
    discover_stops_at_self before self after w h e =
        discover_all_lem before (self ∷ after) w h ∙ discover_self self after _ e
