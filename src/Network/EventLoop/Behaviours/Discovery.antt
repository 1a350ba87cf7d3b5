-- ===== src/Network/EventLoop/Behaviours/Discovery.antt =====
-- How peers find one another: mDNS, the rendezvous server and the identify protocol.
use decent_share.Base.{
  Bool, true, false, List, [], ◌∷◌, Option, none, some, nat_eq, ◌==◌, if◌then◌else◌,
}
use decent_share.Base.Exec.{pure, panic, gets, ◌>>=◌, ◌>>◌}
use decent_share.Network.Message.{PeerId, Multiaddr, Cookie}
use decent_share.Network.EventLoop.Env.{
  Env, address_added, explicit_peer_added, explicit_peer_removed, discovered, registered_at,
  dialled, external_address_added,
}
use decent_share.Network.EventLoop.Swarm.{Handler, modify_loop, act, attempt, attempt_or_panic}

pub record Registration : Type 0 where
  pub peer_id : PeerId
  pub addresses : List Multiaddr

module _ (env : Env) where
  unfoldable pub handle_mdns_discovered : List (PeerId × Multiaddr) → Handler (Unit {0})
  handle_mdns_discovered [] = pure tt
  handle_mdns_discovered ((peer_id, multiaddr) ∷ list) = do
    act env (explicit_peer_added peer_id)
    act env (address_added peer_id multiaddr)
    handle_mdns_discovered list

  unfoldable pub handle_mdns_expired : List (PeerId × Multiaddr) → Handler (Unit {0})
  handle_mdns_expired [] = pure tt
  handle_mdns_expired ((peer_id, _) ∷ list) = do
    act env (explicit_peer_removed peer_id)
    handle_mdns_expired list

  abbrev pub full_address : PeerId → Multiaddr → Multiaddr
  full_address peer_id address =
      if env.ends_with_p2p address peer_id then address else env.with_p2p address peer_id

  -- The inner loop of `handle_rendezvous_discovered`; the message is that of `unwrap`.
  unfoldable pub dial_all : PeerId → List Multiaddr → Handler (Unit {0})
  dial_all peer_id [] = pure tt
  dial_all peer_id (address ∷ addresses) = do
    attempt_or_panic env (dialled (full_address peer_id address)) "unwrap"
    act env (address_added peer_id address)
    dial_all peer_id addresses

  -- The outer loop. It returns, and does not go on, at the peer itself.
  unfoldable pub discover_all : List Registration → Handler (Unit {0})
  discover_all [] = pure tt
  discover_all (registration ∷ rest) =
      let go_on : Handler (Unit {0}) = (do
        dial_all registration.peer_id registration.addresses
        act env (explicit_peer_added registration.peer_id)
        discover_all rest) in
      if registration.peer_id == env.local_peer_id then pure tt else go_on

  -- `registrations.len() < 2`
  abbrev pub fewer_than_two : List Registration → Bool
  fewer_than_two [] = true
  fewer_than_two (_ ∷ []) = true
  fewer_than_two (_ ∷ _ ∷ _) = false

  unfoldable pub handle_rendezvous_discovered : List Registration → Cookie → Handler (Unit {0})
  unfolding discover_all dial_all
  handle_rendezvous_discovered registrations cookie = do
    modify_loop (λ s. record s { cookie = some cookie })
    if fewer_than_two registrations then pure tt else discover_all registrations

  -- `self.rendezvous_peer_id.unwrap()`
  unfoldable pub unwrap_rendezvous : Option PeerId → Handler PeerId
  unwrap_rendezvous none = panic "unwrap"
  unwrap_rendezvous (some peer_id) = pure peer_id

  unfoldable pub discover : Option Cookie → Handler (Unit {0})
  unfolding unwrap_rendezvous
  discover cookie = do
    rendezvous_peer_id ← gets (λ w. w.loop.rendezvous_peer_id)
    peer_id ← unwrap_rendezvous rendezvous_peer_id
    act env (discovered cookie peer_id)

  unfoldable pub handle_connected_to_rendezvous_server : Handler (Unit {0})
  unfolding discover
  handle_connected_to_rendezvous_server = discover none

  unfoldable pub register_at : Option PeerId → Handler (Unit {0})
  register_at none = pure tt
  register_at (some rendezvous_peer_id) = do
    _ ← attempt env (registered_at rendezvous_peer_id)
    pure tt

  unfoldable pub handle_identify_received : Multiaddr → Handler (Unit {0})
  unfolding register_at
  handle_identify_received observed_addr = do
    act env (external_address_added observed_addr)
    rendezvous_peer_id ← gets (λ w. w.loop.rendezvous_peer_id)
    register_at rendezvous_peer_id
