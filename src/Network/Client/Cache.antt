-- ===== src/Network/Client/Cache.antt =====
-- Searches through the cache of usernames: `get_peer_id` and `get_username` of src/network/client.rs.
use decent_share.Base.{
  ok, ◌==◌, nat_eq, true, some-eq, subst, String, ◌≡◌, refl, sym, ap, ◌∙◌, Option, none, some,
  string_eq, nat_eq, ==-refl,
}
use decent_share.Base.Exec.{Outcome, returned, panicked, ◌>>=◌, continue}
use decent_share.Network.Message.{PeerId}
use decent_share.Network.UsernameStore
use decent_share.Network.UsernameStore.Consistency.{insert_lem}
use decent_share.Task.{TaskWorld, TaskEnv}
use decent_share.Network.Client.{
  find_user, remember_peer_id, get_peer_id, get_username, or_find_user,
}

module _ (env : TaskEnv) where
  cached_lem :
      (u : String) (w : TaskWorld) {p : PeerId}
      → UsernameStore.get_peer_id w.username_store u ≡ some p
      → get_peer_id env u w ≡ (returned (some p), w)
  unfolding get_peer_id ◌>>=◌
  cached_lem u w e = rw e

  remembered :
      (u : String) (o : Option PeerId) (w w' : TaskWorld) (p : PeerId)
      → remember_peer_id u o w ≡ (returned (some p), w')
      → UsernameStore.get_peer_id w'.username_store u ≡ some p
  unfolding remember_peer_id ◌>>=◌
  remembered u none w w' p e = cc
  remembered u (some q) w w' p e =
      ap (λ r. UsernameStore.get_peer_id (r.1).username_store u) (sym e)
      ∙ (insert_lem w.username_store u u q q).0
      ∙ rw (==-refl u) (cc)

  found_user :
      (u : String) (r : Outcome (Option PeerId)) (s w' : TaskWorld) (p : PeerId)
      → continue r (remember_peer_id u) s ≡ (returned (some p), w')
      → UsernameStore.get_peer_id w'.username_store u ≡ some p
  found_user u (returned o) s w' p e = remembered u o s w' p e
  found_user u (panicked m) s w' p e = cc

  searched :
      (u : String) (o : Option PeerId) (w w' : TaskWorld) (p : PeerId)
      → UsernameStore.get_peer_id w.username_store u ≡ o
      → or_find_user env u o w ≡ (returned (some p), w')
      → UsernameStore.get_peer_id w'.username_store u ≡ some p
  unfolding or_find_user find_user ◌>>=◌
  searched u none w w' p known e = found_user u _ _ w' p e
  searched u (some q) w w' p known e =
      ap (λ r. UsernameStore.get_peer_id (r.1).username_store u) (sym e) ∙ known ∙ cc

  -- What a search returned is in the cache.
  pub get_peer_id-cached :
      (u : String) (p : PeerId) (w w' : TaskWorld)
      → get_peer_id env u w ≡ (returned (some p), w')
      → UsernameStore.get_peer_id w'.username_store u ≡ some p
  unfolding get_peer_id ◌>>=◌
  get_peer_id-cached u p w w' e =
      searched u (UsernameStore.get_peer_id w.username_store u) w w' p refl e

  -- Once a search for a username has returned a peer, from the cache or from the network, the next
  -- search for it returns the same peer, sends no command and changes nothing.
  pub get_peer_id_twice :
      (u : String) (p : PeerId) (w w' : TaskWorld)
      → get_peer_id env u w ≡ (returned (some p), w')
      → get_peer_id env u w' ≡ (returned (some p), w')
  get_peer_id_twice u p w w' e = cached_lem u w' (get_peer_id-cached u p w w' e)

  named :
      (u : String) (o : Option PeerId) (w w' : TaskWorld) (p : PeerId)
      → remember_peer_id u o w ≡ (returned (some p), w')
      → UsernameStore.get_username w'.username_store p ≡ some u
  unfolding remember_peer_id ◌>>=◌
  named u none w w' p e = cc
  named u (some q) w w' p e =
      let same : (q == p) ≡ true =
        subst (λ x. (q == x) ≡ true) (some-eq (returned-eq (ap (λ r. r.0) e))) (==-refl q) in
      ap (λ r. UsernameStore.get_username (r.1).username_store p) (sym e)
      ∙ (insert_lem w.username_store u u q p).1
      ∙ rw same refl
    where
      returned-eq : {A : Type 0} {a b : A} → returned a ≡ returned b → a ≡ b
      returned-eq e = cc

  searched_name :
      (u : String) (r : Outcome (Option PeerId)) (s w' : TaskWorld) (p : PeerId)
      → continue r (remember_peer_id u) s ≡ (returned (some p), w')
      → UsernameStore.get_username w'.username_store p ≡ some u
  searched_name u (returned o) s w' p e = named u o s w' p e
  searched_name u (panicked m) s w' p e = cc

  -- If a username that was not in the cache is found on the network, then the next question for the
  -- peer's name is answered, without a further search, with the name as it was typed for the search.
  pub found-get_username :
      (u : String) (p : PeerId) (w w' : TaskWorld)
      → UsernameStore.get_peer_id w.username_store u ≡ none
      → get_peer_id env u w ≡ (returned (some p), w')
      → get_username env p w' ≡ (returned (ok u), w')
  unfolding get_peer_id get_username or_find_user find_user ◌>>=◌
  found-get_username u p w w' missing e = rw (searched_name u _ _ w' p (rw missing at e)) refl
