-- ===== src/Network/UsernameStore.antt =====
-- src/network/username_store.rs: the cache of usernames, two maps that are filled together.
pub mod Consistency
use decent_share.Base.{String, Option, nat_eq, string_eq}
use decent_share.Base.Dict
use decent_share.Base.Dict.{Dict}
use decent_share.Network.Message.{PeerId}

pub record UsernameStore : Type 0 where
  pub username_peer_id_map : Dict String PeerId
  pub peer_id_username_map : Dict PeerId String

unfoldable pub default : UsernameStore
default = record { username_peer_id_map = Dict.empty; peer_id_username_map = Dict.empty }

unfoldable pub get_username : UsernameStore → PeerId → Option String
get_username s peer_id = Dict.get s.peer_id_username_map peer_id

unfoldable pub get_peer_id : UsernameStore → String → Option PeerId
get_peer_id s username = Dict.get s.username_peer_id_map username

unfoldable pub insert : UsernameStore → String → PeerId → UsernameStore
insert s username peer_id = record {
  username_peer_id_map = Dict.insert s.username_peer_id_map username peer_id;
  peer_id_username_map = Dict.insert s.peer_id_username_map peer_id username;
}
