-- ===== src/Network/EventLoop/Traces.antt =====
-- Which acts of the event loop on its surroundings are permitted, and after which.
pub mod Steps
use decent_share.Base.{◌≡◌, ◌≢◌, ◌⊎◌, ◌∷◌, [], none, true}
use decent_share.Network.EventLoop.Env.{
  Env, Act, Trace, offer_sent, message_sent, response_answered, file_written,
}
use decent_share.Network.EventLoop.State.{World}

-- The last act was to write a file, and it succeeded.
abbrev pub JustWrote : Env → Trace → Type 0
JustWrote env (file_written path bytes ∷ t) = env.succeeds t (file_written path bytes) ≡ true
JustWrote env _ = ⊥

-- What may follow the trace: a trade offer or a direct message to another peer only, and an answer
-- with the offered file only directly after a file was written. All else is free.
abbrev pub Permitted : Env → Trace → Act → Type 0
Permitted env t (offer_sent peer _ _) = peer ≢ env.local_peer_id
Permitted env t (message_sent peer _ _) = peer ≢ env.local_peer_id
Permitted env t (response_answered _ r) = (r.offered_file_bytes ≡ none) ⊎ JustWrote env t
Permitted env t _ = Unit

abbrev pub Every : (Trace → Act → Type 0) → Trace → Type 0
Every R [] = Unit
Every R (a ∷ t) = R t a × Every R t

abbrev pub IsDisciplined : Env → World → Type 0
IsDisciplined env w = Every (Permitted env) w.trace
