-- ===== src/Network/EventLoop/Lookup.antt =====
-- Usernames in the hash table: the commands of command_handlers.rs that register and search, and
-- `handle_get_record`.
use decent_share.Base.{
  ◌≡◌, refl, sym, ap, ◌∙◌, [], ◌∷◌, ◌++◌, none, some, String, ok, nat_eq, Option-cases, inl, inr,
}
use decent_share.Base.Dict
use decent_share.Base.Exec.{◌>>=◌}
use decent_share.Network.Message.{PeerId, QueryId, Sender, Bytes, peer_found, username_found}
use decent_share.Network.EventLoop.Env.{Env, Trace, stored, queried, replied}
use decent_share.Network.EventLoop.State.{World, peer_ids}
use decent_share.Network.EventLoop.Replies.{IsFresh, IsTracked, IsIssued, queries}
use decent_share.Network.EventLoop.Swarm.{take_pending, put_pending, put_record, get_record}
use decent_share.Network.EventLoop.Commands.{
  handle_register_username, handle_find_peer_id, handle_find_peer_username,
}
use decent_share.Network.EventLoop.Behaviours.Kademlia.{found_record, handle_get_record}
use decent_share.Network.EventLoop.Trades.Offers.{reply-log}

-- What libp2p and the standard library say of the encodings: they can be read back.
pub record IsDecodable (env : Env) : Type 0 where
  pub peer_from_to : (p : PeerId) → env.peer_from_bytes (env.peer_to_bytes p) ≡ some p
  pub from_into_utf8 : (s : String) → env.from_utf8 (env.into_bytes s) ≡ some s

-- Two peers that encode alike.
pub record EncodeAlike (a b : Env) : Type 0 where
  pub peers : (p : PeerId) → a.peer_to_bytes p ≡ b.peer_to_bytes p
  pub texts : (s : String) → a.into_bytes s ≡ b.into_bytes s

-- The two records of a registration, newest first.
abbrev pub registration_acts : Env → String → QueryId → QueryId → Trace
registration_acts env username i j =
    let name : Bytes = env.into_bytes (env.to_lowercase username) in
    let id : Bytes = env.peer_to_bytes env.local_peer_id in
    stored id name (some j) ∷ stored name id (some i) ∷ []

module _ (env : Env) where
  -- The store takes both records.
  abbrev pub IsStored : String → Trace → QueryId → QueryId → Type 0
  IsStored username t i j =
      let name : Bytes = env.into_bytes (env.to_lowercase username) in
      let id : Bytes = env.peer_to_bytes env.local_peer_id in
      (env.put_record t name id ≡ some i)
      × (env.put_record (stored name id (some i) ∷ t) id name ≡ some j)

  registered_trace :
      (username : String) (c : Sender) (w : World) (i j : QueryId)
      → IsStored username w.trace i j
      → (handle_register_username env username c w).1.trace
        ≡ registration_acts env username i j ++ w.trace
  unfolding handle_register_username put_record put_pending ◌>>=◌
  registered_trace username c w i j (first, second) = simp (first, second)

  answered_peer :
      (value : Bytes) (id : QueryId) (d : Sender) (w : World)
      → Dict.get w.loop.pending_peer_id_request id ≡ some d
      → (handle_get_record env (ok (found_record value)) id w).1.trace
        ≡ replied d (peer_found (env.peer_from_bytes value)) ∷ w.trace
  unfolding handle_get_record take_pending ◌>>=◌
  answered_peer value id d w e = rw e (ap (λ (v : World). v.trace) (reply-log env d _ _ _))

  answered_username :
      (value : Bytes) (id : QueryId) (d : Sender) (w : World) {name : String}
      → Dict.get w.loop.pending_peer_id_request id ≡ none
      → Dict.get w.loop.pending_username_request id ≡ some d
      → env.from_utf8 value ≡ some name
      → (handle_get_record env (ok (found_record value)) id w).1.trace
        ≡ replied d (username_found (ok name)) ∷ w.trace
  unfolding handle_get_record take_pending ◌>>=◌
  answered_username value id d w e f u =
      rw (e, u) (rw f (ap (λ (v : World). v.trace) (reply-log env d _ _ _)))

module _ (a b : Env) (alike : EncodeAlike a b) (decodable : IsDecodable b) (u : String)
    (c d : Sender) (wa wb : World) (i j : QueryId) (taken : IsStored a u wa.trace i j) where
  -- Peer `a` registers a username and its store takes both records, and peer `b`, which encodes as `a`
  -- does and can read the encodings back, looks up a name that is the same in lower case. Then
  -- `b` asks for the very key that `a` stored, and when the stored value arrives, `b`'s sender is
  -- told the identity of `a`, whatever the case in which the two wrote the name.
  pub register_then_find_peer_id :
      (v : String)
      → a.to_lowercase u ≡ b.to_lowercase v
      → let key = a.into_bytes (a.to_lowercase u) in
        let value = a.peer_to_bytes a.local_peer_id in
        let id = b.get_record wb.trace key in
        let asked = (handle_find_peer_id b v d wb).1 in
        ((handle_register_username a u c wa).1.trace
          ≡ stored value key (some j) ∷ stored key value (some i) ∷ wa.trace)
        × (asked.trace ≡ queried key id ∷ wb.trace)
        × ((handle_get_record b (ok (found_record value)) id asked).1.trace
            ≡ replied d (peer_found (some a.local_peer_id)) ∷ asked.trace)
  unfolding handle_find_peer_id get_record put_pending ◌>>=◌
  register_then_find_peer_id v e =
      let same : b.into_bytes (b.to_lowercase v) ≡ a.into_bytes (a.to_lowercase u) =
        cc (alike.texts (a.to_lowercase u)) in
      let known : b.peer_from_bytes (a.peer_to_bytes a.local_peer_id) ≡ some a.local_peer_id =
        cc (alike.peers a.local_peer_id, decodable.peer_from_to a.local_peer_id) in
      (
        registered_trace a u c wa i j taken,
        rw same refl,
        rw same (
            answered_peer b _ _ d _ (Dict.get-insert_self wb.loop.pending_peer_id_request _ d)
            ∙ rw known refl),
      )

  -- Under the same conditions, if `b` looks up the name of `a`, the key is the identity that `a` stored, and `b`'s sender is
  -- told the registered name in lower case. This holds if `b`'s swarm gives no identifier twice
  -- and gave all those in its tables, so that the answer is not taken for that to an earlier search.
  pub register_then_find_username :
      IsFresh b
      → IsTracked wb
      → let value = a.into_bytes (a.to_lowercase u) in
        let key = a.peer_to_bytes a.local_peer_id in
        let id = b.get_record wb.trace key in
        let asked = (handle_find_peer_username b a.local_peer_id d wb).1 in
        ((handle_register_username a u c wa).1.trace
          ≡ stored key value (some j) ∷ stored value key (some i) ∷ wa.trace)
        × (asked.trace ≡ queried key id ∷ wb.trace)
        × ((handle_get_record b (ok (found_record value)) id asked).1.trace
            ≡ replied d (username_found (ok (a.to_lowercase u))) ∷ asked.trace)
  unfolding handle_find_peer_username get_record put_pending ◌>>=◌
  register_then_find_username fresh tracked =
      let same : b.peer_to_bytes a.local_peer_id ≡ a.peer_to_bytes a.local_peer_id =
        sym (alike.peers a.local_peer_id) in
      let known : b.from_utf8 (a.into_bytes (a.to_lowercase u)) ≡ some (a.to_lowercase u) =
        cc (alike.texts (a.to_lowercase u), decodable.from_into_utf8 (a.to_lowercase u)) in
      (
        registered_trace a u c wa i j taken,
        rw same refl,
        rw same (
            answered_username b _ _ d _ (unused _ (fresh.get_record wb.trace _))
              (Dict.get-insert_self wb.loop.pending_username_request _ d) known),
      )
    where
      unused :
          (id : QueryId)
          → ¬ IsIssued queries id wb.trace
          → Dict.get wb.loop.pending_peer_id_request id ≡ none
      unused id new = elim (Option-cases (Dict.get wb.loop.pending_peer_id_request id)) [
        | inl e ↦ e
        | inr (c', e) ↦ absurd (new (tracked peer_ids id c' e))
      ]
