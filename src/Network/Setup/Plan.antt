-- ===== src/Network/Setup/Plan.antt =====
-- The set-up as a list of steps, each of which does acts or fails, and `new` as one that carries it out.
use decent_share.Base.{
  ◌≡◌, refl, String, Bool, if◌then◌else◌, arith, List, [], ◌∷◌, ◌++◌, Option, none, some, Result,
  ok, err,
}
use decent_share.Network.Message.{PeerId, Multiaddr}
use decent_share.Network.UsernameStore.{UsernameStore}
use decent_share.Network.UsernameStore
use decent_share.Network.EventLoop.State.{EventLoop}
use decent_share.Network.EventLoop.State
use decent_share.Network.Setup.{
  SetupEnv, SetupAct, SetupError, Setup, ◌>>=◌, ◌>>◌, swarm_built, mode_set_to_server, subscribed,
  listened, dialled, config_error, tcp_error, gossipsub_error, mdns_error, subscription_error,
  address_error, peer_id_error, listen_error, dial_error, try, do_act, pure, behaviour,
  rendezvous_point_peer_id, rendezvous_address, listen, connect, build_swarm, new,
}

abbrev pub Step : Type 0
Step = Result (List SetupAct) SetupError

-- The steps in order, up to the first that fails.
abbrev pub carry_out : {A : Type 0} → List Step → A → Setup A
carry_out [] a t = (ok a, t)
carry_out (ok acts ∷ steps) a t = carry_out steps a (acts ++ t)
carry_out (err e ∷ steps) a t = (err e, t)

pub record Follows {A : Type 0} (m : Setup A) (steps : List Step) (a : A) : Type 0 where
  pub by_steps : (t : List SetupAct) → m t ≡ carry_out steps a t

-- A call that returns a value, and one that may fail, as a step.
abbrev checked : {A E : Type 0} → (E → SetupError) → Result A E → Step
checked f (ok a) = ok []
checked f (err e) = err (f e)

abbrev pub parsed : SetupError → Option PeerId → Step
parsed e none = err e
parsed e (some peer_id) = ok []

abbrev pub reached :
    SetupError
    → (Multiaddr → SetupAct)
    → (Multiaddr → Bool)
    → (Multiaddr → SetupError)
    → Option Multiaddr
    → Step
reached unparsed act call failed none = err unparsed
reached unparsed act call failed (some a) = if call a then ok (act a ∷ []) else err (failed a)

module _ (env : SetupEnv) where
  abbrev pub listening : String → Step
  listening s =
      reached (address_error s) listened env.listen_on listen_error (env.parse_multiaddr s)

  abbrev pub dialling : Option String → List Step
  dialling none = []
  dialling (some ip) =
      parsed (peer_id_error rendezvous_point_peer_id) (env.parse_peer_id rendezvous_point_peer_id)
      ∷ reached (address_error (rendezvous_address env ip)) dialled env.dial dial_error
          (env.parse_multiaddr (rendezvous_address env ip))
      ∷ []

  abbrev pub prepared : List Step
  prepared =
      checked config_error (env.gossipsub_config 10)
      ∷ checked tcp_error env.with_tcp
      ∷ checked gossipsub_error env.gossipsub_behaviour
      ∷ checked mdns_error (env.mdns_behaviour env.local_peer_id)
      ∷ ok (swarm_built (behaviour env.local_peer_id) 60 ∷ [])
      ∷ ok (mode_set_to_server ∷ [])
      ∷ checked subscription_error (env.subscribe "chat-room")
      ∷ ok (subscribed "chat-room" ∷ [])
      ∷ listening "/ip4/0.0.0.0/udp/0/quic-v1"
      ∷ listening "/ip4/0.0.0.0/tcp/0"
      ∷ []

  abbrev pub plan : Option String → List Step
  plan ip = prepared ++ dialling ip

  -- The peer the event loop takes for the rendezvous server.
  abbrev pub server : Option String → Option PeerId
  server none = none
  server (some ip) = env.parse_peer_id rendezvous_point_peer_id

then-Follows :
    {A : Type 0} {m : Setup (Unit {0})} {n : Setup A} {steps rest : List Step} {a : A}
    → Follows m steps tt
    → Follows n rest a
    → Follows (m >> n) (steps ++ rest) a
then-Follows {n} {steps} {rest} {a} h h' = record {
  by_steps = λ t. rw (h.by_steps t, ◌>>◌, ◌>>=◌) (go steps t);
}
  where
    go :
        (ss : List Step) (t : List SetupAct) → (carry_out ss tt >> n) t ≡ carry_out (ss ++ rest) a t
    go [] t = h'.by_steps t
    go (ok acts ∷ ss) t = go ss (acts ++ t)
    go (err e ∷ ss) t = refl

return-Follows :
    {A B : Type 0} {m : Setup A} (f : A → B) {steps : List Step} {a : A}
    → Follows m steps a
    → Follows (m >>= λ x. pure (f x)) steps (f a)
return-Follows f {steps} {a} h = record { by_steps = λ t. rw (h.by_steps t, ◌>>=◌) (go steps t) }
  where
    go :
        (ss : List Step) (t : List SetupAct)
        → (carry_out ss a >>= λ x. pure (f x)) t ≡ carry_out ss (f a) t
    go [] t = refl
    go (ok acts ∷ ss) t = go ss (acts ++ t)
    go (err e ∷ ss) t = refl

try-Follows :
    {E : Type 0} (f : E → SetupError) (r : Result (Unit {0}) E)
    → Follows (try f r) (checked f r ∷ []) tt
try-Follows f (ok a) = record { by_steps = λ t. refl }
try-Follows f (err e) = record { by_steps = λ t. refl }

do_act-Follows : (a : SetupAct) → Follows (do_act a) (ok (a ∷ []) ∷ []) tt
do_act-Follows a = record { by_steps = λ t. refl }

module _ (env : SetupEnv) where
  listen-Follows : (s : String) → Follows (listen env s) (listening env s ∷ []) tt
  unfolding listen
  listen-Follows s = record { by_steps = λ t. ground arith }

  connect-Follows :
      (ip : Option String) → Follows (connect env ip) (dialling env ip) (server env ip)
  unfolding connect
  connect-Follows none = record { by_steps = λ t. refl }
  connect-Follows (some ip) = record { by_steps = λ t. ground arith }

  build_swarm-Follows :
      Follows
        (build_swarm env)
        (checked config_error (env.gossipsub_config 10)
          ∷ checked tcp_error env.with_tcp
          ∷ checked gossipsub_error env.gossipsub_behaviour
          ∷ checked mdns_error (env.mdns_behaviour env.local_peer_id)
          ∷ ok (swarm_built (behaviour env.local_peer_id) 60 ∷ [])
          ∷ [])
        tt
  unfolding build_swarm
  build_swarm-Follows = then-Follows (try-Follows config_error (env.gossipsub_config 10)) (
      then-Follows (try-Follows tcp_error env.with_tcp) (
        then-Follows (try-Follows gossipsub_error env.gossipsub_behaviour) (
          then-Follows (try-Follows mdns_error (env.mdns_behaviour env.local_peer_id))
            (do_act-Follows _))))

  -- Set-up does the steps of the plan in order and stops at the first that fails, with the error of that
  -- step and the acts of those before it. If none fails, the client's cache is empty and the event loop
  -- starts as `State.new`, with the server's peer id exactly when an address is given.
  pub new-Follows :
      (username : String) (ip : Option String)
      → Follows
          (new env username ip)
          (plan env ip)
          (UsernameStore.default, State.new username (server env ip))
  unfolding new
  new-Follows username ip = then-Follows build_swarm-Follows (
      then-Follows (do_act-Follows _) (
        then-Follows (try-Follows subscription_error (env.subscribe "chat-room")) (
          then-Follows (do_act-Follows _) (
            then-Follows (listen-Follows "/ip4/0.0.0.0/udp/0/quic-v1") (
              then-Follows (listen-Follows "/ip4/0.0.0.0/tcp/0") (
                return-Follows (λ id. (UsernameStore.default, State.new username id))
                  (connect-Follows ip)))))))
