-- ===== src/Network/Client.antt =====
-- src/network/client.rs: the main task's side of the network. The lock on the cache of usernames is
-- always free, since only the main task takes it.
pub mod Cache
pub mod Invariants
use decent_share.Base.{String, Option, none, some, Result, ok, err}
use decent_share.Base.Exec.{returned, pure, ◌>>=◌, ◌>>◌}
use decent_share.Network.Message.{
  PeerId, Bytes, FilePath, Error, not_registered, not_register_user, no_bytes, PublishError,
  PutRecordError, register_username as to_register_username, find_peer_id,
  find_peer_username as to_find_peer_username, make_trade_offer, respond_trade, send_chat_message,
  direct_message as to_direct_message,
}
use decent_share.Network.UsernameStore
use decent_share.Task.{Task, TaskEnv, query, send_command, ask}

abbrev cached_peer_id : String → Task (Option PeerId)
cached_peer_id username w = (returned (UsernameStore.get_peer_id w.username_store username), w)

abbrev cached_username : PeerId → Task (Option String)
cached_username peer_id w = (returned (UsernameStore.get_username w.username_store peer_id), w)

abbrev remember : String → PeerId → Task (Unit {0})
remember username peer_id w = (
  returned tt,
  record w { username_store = UsernameStore.insert w.username_store username peer_id },
)

-- The end of `find_user` and of `find_peer_username`: what was found goes into the cache.
unfoldable pub remember_peer_id : String → Option PeerId → Task (Option PeerId)
remember_peer_id username none = pure none
remember_peer_id username (some peer_id) = do remember username peer_id; pure (some peer_id)

unfoldable pub remember_username : PeerId → Result String Error → Task (Result String Error)
remember_username peer_id (err error) = pure (err error)
remember_username peer_id (ok username) = do remember username peer_id; pure (ok username)

module _ (env : TaskEnv) where
  unfoldable pub find_user : String → Task (Option PeerId)
  unfolding remember_peer_id
  find_user username = do
    peer_id ← ask env (find_peer_id username) env.peer_id "Peer ID sender not be dropped."
    remember_peer_id username peer_id

  unfoldable pub find_peer_username : PeerId → Task (Result String Error)
  unfolding remember_username
  find_peer_username peer_id = do
    username ← ask env (to_find_peer_username peer_id) env.username "Username sender was dropped"
    remember_username peer_id username

  unfoldable pub or_find_user : String → Option PeerId → Task (Option PeerId)
  or_find_user username none = find_user username
  or_find_user username (some peer_id) = pure (some peer_id)

  unfoldable pub get_peer_id : String → Task (Option PeerId)
  unfolding or_find_user
  get_peer_id username = do cached ← cached_peer_id username; or_find_user username cached

  unfoldable pub or_find_username : PeerId → Option String → Task (Result String Error)
  or_find_username peer_id none = find_peer_username peer_id
  or_find_username peer_id (some username) = pure (ok username)

  unfoldable pub get_username : PeerId → Task (Result String Error)
  unfolding or_find_username
  get_username peer_id = do cached ← cached_username peer_id; or_find_username peer_id cached

  -- `let Some(peer_id) = self.get_peer_id(username).await else { bail!(…) }`
  unfoldable pub or_bail :
      {A : Type 0}
      → Error
      → Option PeerId
      → (PeerId → Task (Result A Error))
      → Task (Result A Error)
  or_bail error none rest = pure (err error)
  or_bail error (some peer_id) rest = rest peer_id

  unfoldable pub with_peer :
      {A : Type 0} → String → Error → (PeerId → Task (Result A Error)) → Task (Result A Error)
  unfolding or_bail
  with_peer username error rest = do peer_id ← get_peer_id username; or_bail error peer_id rest

  unfoldable pub offer_trade :
      String → Bytes → String → String → FilePath → Task (Result (Unit {0}) Error)
  unfolding with_peer
  offer_trade offered offered_bytes recipient requested path =
      with_peer recipient (not_registered recipient) λ peer_id.
        ask env (make_trade_offer offered offered_bytes peer_id requested path) env.delivery
          "Error receiver was dropped"

  abbrev pub bytes_or_error : Result (Option Bytes) Error → Result Bytes Error
  bytes_or_error (ok (some bytes)) = ok bytes
  bytes_or_error (ok none) = err no_bytes
  bytes_or_error (err error) = err error

  unfoldable pub accept_trade : String → String → String → Bytes → Task (Result Bytes Error)
  unfolding with_peer
  accept_trade username requested offered requested_bytes =
      with_peer username (not_register_user username) λ peer_id. (do
        answer ←
            ask env
              (λ sender.
                respond_trade peer_id requested offered (some requested_bytes) (some sender))
              env.bytes "Offered bytes was dropped"
        pure (bytes_or_error answer))

  unfoldable pub decline_trade : String → String → String → Task (Result (Unit {0}) Error)
  unfolding with_peer
  decline_trade username offered requested = with_peer username (not_registered username) λ peer_id.
      (do send_command env (respond_trade peer_id requested offered none none); pure (ok tt))

  unfoldable pub register_username : String → Task (Result (Unit {0}) PutRecordError)
  register_username username =
      ask env (to_register_username username) env.status "Status sender was dropped"

  unfoldable pub send_message : String → Task (Result (Unit {0}) PublishError)
  send_message message =
      ask env (send_chat_message message) env.publication "Status sender was dropped"

  unfoldable pub direct_message : String → String → Task (Result (Unit {0}) Error)
  unfolding with_peer
  direct_message username message =
      with_peer username (not_registered username) λ peer_id.
        ask env (to_direct_message peer_id message) env.delivery "Error sender was dropped"
