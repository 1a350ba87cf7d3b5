-- ===== src/Network/UsernameStore/Consistency.antt =====
-- When the two maps of the store agree.
use decent_share.Base.{
  String, ◌≡◌, ◌≢◌, ◌⊎◌, inl, inr, none, some, ◌==◌, nat_eq, string_eq, if◌then◌else◌, arith,
}
use decent_share.Base.Dict
use decent_share.Network.Message.{PeerId}
use decent_share.Network.UsernameStore.{UsernameStore, default, get_username, get_peer_id, insert}

-- After an insertion each map has the new pair, and is as before at every other key.
pub insert_lem :
    (s : UsernameStore) (u v : String) (p q : PeerId)
    → (get_peer_id (insert s u p) v ≡ (if u == v then some p else get_peer_id s v))
      × (get_username (insert s u p) q ≡ (if p == q then some u else get_username s q))
unfolding insert get_peer_id get_username
insert_lem s u v p q =
    (Dict.get-insert s.username_peer_id_map u v p, Dict.get-insert s.peer_id_username_map p q u)

-- The two maps have the same pairs.
abbrev pub IsConsistent : UsernameStore → Type 0
IsConsistent s =
    ((p : PeerId) (u : String) → get_username s p ≡ some u → get_peer_id s u ≡ some p)
    × ((p : PeerId) (u : String) → get_peer_id s u ≡ some p → get_username s p ≡ some u)

pub default-IsConsistent : IsConsistent default
unfolding default get_username get_peer_id
default-IsConsistent = ((λ p u e. cc (Dict.get-empty p)), (λ p u e. cc (Dict.get-empty u)))

module _ (s : UsernameStore) (u : String) (p : PeerId) where
  -- If the two maps have the same pairs, then they have so after an insertion of a name and a peer that
  -- are both new to the store, or of a pair that it has.
  pub insert-IsConsistent :
      IsConsistent s
      → ((get_peer_id s u ≡ none) × (get_username s p ≡ none)) ⊎ (get_peer_id s u ≡ some p)
      → IsConsistent (insert s u p)
  insert-IsConsistent (there, back) (inl (no_peer, no_name)) = (
    (λ q v e. ground (
      arith,
      e,
      no_peer,
      no_name,
      insert_lem s u v p q,
      string_eq.beq_iff u v,
      nat_eq.beq_iff p q,
      there q v,
    )),
    (λ q v e. ground (
      arith,
      e,
      no_peer,
      no_name,
      insert_lem s u v p q,
      string_eq.beq_iff u v,
      nat_eq.beq_iff p q,
      back q v,
    )),
  )
  insert-IsConsistent (there, back) (inr known) = (
    (λ q v e. ground (
      arith,
      e,
      known,
      back p u known,
      insert_lem s u v p q,
      string_eq.beq_iff u v,
      nat_eq.beq_iff p q,
      there q v,
    )),
    (λ q v e. ground (
      arith,
      e,
      known,
      back p u known,
      insert_lem s u v p q,
      string_eq.beq_iff u v,
      nat_eq.beq_iff p q,
      back q v,
    )),
  )

  -- A name that the store has for another peer makes it inconsistent: that peer is still shown under
  -- the name, and the name leads to the new one.
  pub insert-stale :
      (q : PeerId)
      → get_username s q ≡ some u
      → q ≢ p
      → (get_username (insert s u p) q ≡ some u) × (get_peer_id (insert s u p) u ≡ some p)
  insert-stale q known other =
      ground (arith, insert_lem s u u p q, string_eq.beq_iff u u, nat_eq.beq_iff p q)
