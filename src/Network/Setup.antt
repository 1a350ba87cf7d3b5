-- ===== src/Network/Setup.antt =====
-- `network::new` of src/network/mod.rs: the swarm is configured and built, the peer subscribes to the
-- chat, listens, and dials the rendezvous server if its address is given. What libp2p makes of a
-- configuration or of an address is a parameter (`SetupEnv`); each step that may fail ends the set-up
-- with its error.
pub mod Plan
pub mod Dialled
use decent_share.Base.{ℕ, String, ◌<>◌, Bool, List, [], ◌∷◌, Option, none, some, Result, ok, err}
use decent_share.Network.Message.{PeerId, Multiaddr}
use decent_share.Network.UsernameStore.{UsernameStore}
use decent_share.Network.UsernameStore
use decent_share.Network.EventLoop.State.{EventLoop}
use decent_share.Network.EventLoop.State

abbrev pub rendezvous_point_port_number : ℕ
rendezvous_point_port_number = 62649

abbrev pub rendezvous_point_peer_id : String
rendezvous_point_peer_id = "12D3KooWDpJ7As7BWAwRMfu1VU2WCqNjvq387JEYKDBj4kx6nXTN"

-- What `with_behaviour` is given: of a request_response behaviour its protocol, of identify its protocol
-- and the peer whose public key it tells, of the others the peer whose key or store they work with.
pub record Behaviour : Type 0 where
  pub trade_offering : String
  pub trade_response : String
  pub direct_messaging : String
  pub kademlia : PeerId
  pub gossipsub : PeerId
  pub rendezvous : PeerId
  pub identify : String × PeerId
  pub mdns : PeerId

abbrev pub behaviour : PeerId → Behaviour
behaviour peer_id = record {
  trade_offering = "/trade-offer/1";
  trade_response = "/trade-response/1";
  direct_messaging = "/direct-message/1";
  kademlia = peer_id;
  gossipsub = peer_id;
  rendezvous = peer_id;
  identify = ("rendezvous-identify/1.0.0", peer_id);
  mdns = peer_id;
}

pub data SetupAct : Type 0 where
  -- with an idle connection timeout of so many seconds
  swarm_built : Behaviour → ℕ → SetupAct
  mode_set_to_server : SetupAct
  subscribed : String → SetupAct
  listened dialled : Multiaddr → SetupAct

-- The library's errors are opaque.
pub data SetupError : Type 0 where
  config_error tcp_error gossipsub_error mdns_error subscription_error : ℕ → SetupError
  address_error peer_id_error : String → SetupError
  listen_error dial_error : Multiaddr → SetupError

pub record SetupEnv : Type 0 where
  -- the peer of the new identity
  pub local_peer_id : PeerId
  -- `ConfigBuilder::build`, with a heartbeat of so many seconds and strict validation
  pub gossipsub_config : ℕ → Result (Unit {0}) ℕ
  pub with_tcp : Result (Unit {0}) ℕ
  pub gossipsub_behaviour : Result (Unit {0}) ℕ
  pub mdns_behaviour : PeerId → Result (Unit {0}) ℕ
  pub subscribe : String → Result (Unit {0}) ℕ
  -- `str::parse`, and `{}` of a number
  pub parse_multiaddr : String → Option Multiaddr
  pub parse_peer_id : String → Option PeerId
  pub show_number : ℕ → String
  pub listen_on : Multiaddr → Bool
  pub dial : Multiaddr → Bool

-- The acts so far, newest first, come back in both cases.
abbrev pub Setup : Type 0 → Type 0
Setup A = List SetupAct → Result A SetupError × List SetupAct

abbrev and_then :
    {A B : Type 0}
    → (A → Setup B)
    → Result A SetupError × List SetupAct
    → Result B SetupError × List SetupAct
and_then f (ok a, t) = f a t
and_then f (err e, t) = (err e, t)

infixl 5 ◌>>=◌ ◌>>◌
abbrev pub ◌>>=◌ : {A B : Type 0} → Setup A → (A → Setup B) → Setup B
◌>>=◌ m f t = and_then f (m t)

abbrev pub ◌>>◌ : {B : Type 0} → Setup (Unit {0}) → Setup B → Setup B
m >> n = m >>= λ _. n

abbrev pub pure : {A : Type 0} → A → Setup A
pure a t = (ok a, t)

-- `result?`
abbrev pub try : {A E : Type 0} → (E → SetupError) → Result A E → Setup A
try f (ok a) t = (ok a, t)
try f (err e) t = (err (f e), t)

abbrev pub try_some : {A : Type 0} → SetupError → Option A → Setup A
try_some e none t = (err e, t)
try_some e (some a) t = (ok a, t)

abbrev pub do_act : SetupAct → Setup (Unit {0})
do_act a t = (ok tt, a ∷ t)

-- A call that fails leaves no act behind.
abbrev pub try_act : SetupError → Bool → SetupAct → Setup (Unit {0})
try_act e Bool.true a t = (ok tt, a ∷ t)
try_act e Bool.false a t = (err e, t)

module _ (env : SetupEnv) where
  -- `swarm.listen_on(address.parse()?)?`
  unfoldable pub listen : String → Setup (Unit {0})
  listen address = do
    multiaddr ← try_some (address_error address) (env.parse_multiaddr address)
    try_act (listen_error multiaddr) (env.listen_on multiaddr) (listened multiaddr)

  abbrev pub rendezvous_address : String → String
  rendezvous_address ip = "/ip4/" <> ip <> "/tcp/" <> env.show_number rendezvous_point_port_number

  unfoldable pub connect : Option String → Setup (Option PeerId)
  connect none = pure none
  connect (some rendezvous_ip_address) = do
    peer_id ←
        try_some (peer_id_error rendezvous_point_peer_id)
          (env.parse_peer_id rendezvous_point_peer_id)
    let address = rendezvous_address rendezvous_ip_address
    multiaddr ← try_some (address_error address) (env.parse_multiaddr address)
    try_act (dial_error multiaddr) (env.dial multiaddr) (dialled multiaddr)
    pure (some peer_id)

  unfoldable pub build_swarm : Setup (Unit {0})
  build_swarm = do
    try config_error (env.gossipsub_config 10)
    try tcp_error env.with_tcp
    try gossipsub_error env.gossipsub_behaviour
    try mdns_error (env.mdns_behaviour env.local_peer_id)
    do_act (swarm_built (behaviour env.local_peer_id) 60)

  -- The client's cache and the event loop; the three channels are left out.
  unfoldable pub new : String → Option String → Setup (UsernameStore × EventLoop)
  unfolding listen connect build_swarm
  new username rendezvous_ip_address = do
    build_swarm
    do_act mode_set_to_server
    try subscription_error (env.subscribe "chat-room")
    do_act (subscribed "chat-room")
    listen "/ip4/0.0.0.0/udp/0/quic-v1"
    listen "/ip4/0.0.0.0/tcp/0"
    rendezvous_peer_id ← connect rendezvous_ip_address
    pure (UsernameStore.default, State.new username rendezvous_peer_id)
