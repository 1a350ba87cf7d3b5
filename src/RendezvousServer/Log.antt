-- ===== src/RendezvousServer/Log.antt =====
-- The log calls of the rendezvous server. Which of them give a line is decided by RUST_LOG.
use decent_share.Base.{
  ◌≡◌, refl, suc, ◌+◌, if◌then◌else◌, ℕ, Bool, true, false, Bool-cases, inl, inr, List, [], ◌∷◌,
  Option, none, some, Result, ok, err, arith,
}
use decent_share.Base.Exec.{Outcome, returned, ◌>>=◌, ◌>>◌, pure}
use decent_share.Network.Message.{PeerId, Multiaddr}
use decent_share.RendezvousServer.{
  connection_established, connection_closed, peer_registered, discover_served, unhandled, length,
  Server, SwarmEvent, ServerEnv, ServerAct, ServerError, swarm_built, info, debug, behaviour,
  tcp_error, behaviour_error, main, serve, handle_event, do_act, replicate, unwrap, or_return,
  listen,
}

-- The log calls among the acts.
abbrev pub logged : List ServerAct → ℕ
logged [] = 0
logged (info text ∷ t) = suc (logged t)
logged (debug text ∷ t) = suc (logged t)
logged (_ ∷ t) = logged t

abbrev pub is_done : Outcome (Result (Unit {0}) ServerError) → Bool
is_done (returned (ok _)) = true
is_done _ = false

abbrev pub AllOrNothing :
    List SwarmEvent → Outcome (Result (Unit {0}) ServerError) × List ServerAct → Type 0
AllOrNothing events (r, t) = logged t ≡ (if is_done r then length events else 0)

module _ (env : ServerEnv) where
  -- Each event has one call.
  handle_event_lem :
      (event : SwarmEvent) (t : List ServerAct)
      → ((handle_event env event t).0 ≡ returned tt)
        × (logged (handle_event env event t).1 ≡ suc (logged t))
  unfolding handle_event do_act
  handle_event_lem (connection_established p) t = (refl, refl)
  handle_event_lem (connection_closed p) t = (refl, refl)
  handle_event_lem (peer_registered p namespace) t = (refl, refl)
  handle_event_lem (discover_served p names) t = (refl, refl)
  handle_event_lem (unhandled text) t = (refl, refl)

  serve_lem :
      (events : List SwarmEvent) (t : List ServerAct)
      → ((serve env events t).0 ≡ returned (ok tt))
        × (logged (serve env events t).1 ≡ length events + logged t)
  unfolding serve pure ◌>>=◌
  serve_lem [] t = (refl, omega arith)
  serve_lem (event ∷ events) t =
      let (done, one) = handle_event_lem event t in
      let (all_done, all) = serve_lem events (handle_event env event t).1 in
      (rw done all_done, rw done (rw (all, one) (omega arith)))

  served :
      (events : List SwarmEvent) (t : List ServerAct)
      → logged t ≡ 0
      → AllOrNothing events (serve env events t)
  served events t e = let (done, all) = serve_lem events t in rw (done, all, e) (omega arith)

  unfoldable begin :
      PeerId → List SwarmEvent → Option Multiaddr → Server (Result (Unit {0}) ServerError)
  unfolding unwrap listen
  begin peer_id events o = do
    do_act (swarm_built (behaviour peer_id))
    address ← unwrap o
    listen address (env.listen_on address)
    serve env events

  begin-AllOrNothing :
      (peer_id : PeerId) (events : List SwarmEvent) (o : Option Multiaddr)
      → AllOrNothing events (begin peer_id events o [])
  unfolding begin ◌>>=◌ unwrap listen do_act
  begin-AllOrNothing peer_id events none = refl
  begin-AllOrNothing peer_id events (some a) = elim (Bool-cases (env.listen_on a)) [
    | inl e ↦ rw (e, ◌>>=◌) (served events _ refl)
    | inr e ↦ rw (e, ◌>>=◌) (served events _ refl)
  ]

  or_return-AllOrNothing :
      (f : ℕ → ServerError) (r : Result (Unit {0}) ℕ) (events : List SwarmEvent)
      (rest : Server (Result (Unit {0}) ServerError))
      → AllOrNothing events (rest [])
      → AllOrNothing events (or_return f r rest [])
  unfolding or_return pure
  or_return-AllOrNothing f (ok _) events rest h = h
  or_return-AllOrNothing f (err e) events rest h = refl

  -- In every case: the server returns without an error and has made one log call for each event, or it
  -- fails or panics, and has made none.
  pub main-AllOrNothing : (events : List SwarmEvent) → AllOrNothing events (main env events [])
  unfolding main begin pure ◌>>=◌ unwrap or_return listen do_act
  main-AllOrNothing events = go (env.keypair (replicate 32 0))
    where
      go :
          (o : Option PeerId)
          → AllOrNothing events (
              (unwrap o >>= λ peer_id. or_return tcp_error env.with_tcp (
                  or_return behaviour_error
                    (env.with_behaviour (behaviour peer_id))
                    (begin peer_id events (env.parse_multiaddr "/ip4/0.0.0.0/tcp/62649"))))
                [])
      go none = refl
      go (some peer_id) = or_return-AllOrNothing tcp_error env.with_tcp events _ (
          or_return-AllOrNothing behaviour_error (env.with_behaviour (behaviour peer_id)) events _
            (begin-AllOrNothing peer_id events (env.parse_multiaddr "/ip4/0.0.0.0/tcp/62649")))
