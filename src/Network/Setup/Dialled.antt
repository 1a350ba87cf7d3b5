-- ===== src/Network/Setup/Dialled.antt =====
-- What a set-up that succeeds with an address given has done last: it dialled the rendezvous server.
use decent_share.Base.{
  ◌≡◌, refl, sym, ◌∙◌, String, true, List, [], ◌∷◌, ◌++◌, Option, none, some, Bool-cases, inl, inr,
  ok, err, arith,
}
use decent_share.Network.Message.{PeerId, Multiaddr}
use decent_share.Network.UsernameStore.{UsernameStore}
use decent_share.Network.UsernameStore
use decent_share.Network.EventLoop.State.{EventLoop}
use decent_share.Network.EventLoop.State
use decent_share.Network.Setup.{
  SetupEnv, SetupAct, dialled, peer_id_error, address_error, dial_error, rendezvous_point_peer_id,
  rendezvous_address, new,
}
use decent_share.Network.Setup.Plan.{
  Step, carry_out, dialling, prepared, parsed, reached, new-Follows, server,
}

pub record Dialled (env : SetupEnv) (username ip : String) (loop : EventLoop) (acts : List SetupAct)
    : Type 0 where
  pub peer_id : PeerId
  pub address : Multiaddr
  pub before : List SetupAct
  pub peer_id_parsed : env.parse_peer_id rendezvous_point_peer_id ≡ some peer_id
  pub address_parsed : env.parse_multiaddr (rendezvous_address env ip) ≡ some address
  pub accepted : env.dial address ≡ true
  pub known : loop ≡ State.new username (some peer_id)
  pub last : acts ≡ dialled address ∷ before

-- A list of steps that is carried out in full has its last steps carried out in full.
carry_out_append :
    {A : Type 0} (a b : A) {t : List SetupAct} (ss rest : List Step) (t' : List SetupAct)
    → carry_out (ss ++ rest) a t' ≡ (ok b, t)
    → (u : List SetupAct) × (carry_out rest a u ≡ (ok b, t))
carry_out_append a b [] rest t' h = (t', h)
carry_out_append a b (ok acts ∷ ss) rest t' h = carry_out_append a b ss rest (acts ++ t') h
carry_out_append a b (err e ∷ ss) rest t' h = ground arith

module _ (env : SetupEnv) (username ip : String) where
  dialling-Dialled :
      (store store' : UsernameStore) (loop : EventLoop) (acts u : List SetupAct)
      → carry_out {A = UsernameStore × EventLoop}
          (dialling env (some ip))
          (store', State.new username (server env (some ip)))
          u
        ≡ (ok (store, loop), acts)
      → Dialled env username ip loop acts
  dialling-Dialled store store' loop acts u =
      go (env.parse_peer_id rendezvous_point_peer_id) refl
        (env.parse_multiaddr (rendezvous_address env ip)) refl
    where
      go :
          (peer : Option PeerId)
          → env.parse_peer_id rendezvous_point_peer_id ≡ peer
          → (address : Option Multiaddr) → env.parse_multiaddr (rendezvous_address env ip) ≡ address
          → carry_out {A = UsernameStore × EventLoop}
              (parsed (peer_id_error rendezvous_point_peer_id) peer
                ∷ reached
                    (address_error (rendezvous_address env ip))
                    dialled
                    env.dial
                    dial_error
                    address
                ∷ [])
              (store', State.new username peer)
              u
            ≡ (ok (store, loop), acts)
          → Dialled env username ip loop acts
      go none ep address ea h = ground arith
      go (some p) ep none ea h = ground arith
      go (some p) ep (some a) ea h = elim (Bool-cases (env.dial a)) [
        | inr e ↦ ground arith
        | inl e ↦ record {
          peer_id = p;
          address = a;
          before = u;
          peer_id_parsed = ep;
          address_parsed = ea;
          accepted = e;
          known = ground arith;
          last = ground arith;
        }
      ]

  -- When set-up succeeds with an address given, the server's peer id and its address could be parsed, the
  -- swarm took the call, the event loop starts with that peer id, and the dialling is the last act.
  pub new-Dialled :
      (store : UsernameStore) (loop : EventLoop) (acts : List SetupAct)
      → new env username (some ip) [] ≡ (ok (store, loop), acts)
      → Dialled env username ip loop acts
  new-Dialled store loop acts h =
      let (u, e) =
        carry_out_append _ (store, loop) (prepared env) (dialling env (some ip)) []
          (sym ((new-Follows env username (some ip)).by_steps []) ∙ h) in
      dialling-Dialled store UsernameStore.default loop acts u e
