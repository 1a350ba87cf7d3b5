-- ===== src/Network/EventLoop/Trades/Untouched.antt =====
-- The fields of the event loop under the acts of `complete_trade`.
use decent_share.Base.{◌≡◌, Option, none, some, String}
use decent_share.Base.Exec.Keeps.{Keeps, keeps_rules}
use decent_share.Network.Message.{PeerId, Channel, Bytes, FilePath, TradeResponse, Event}
use decent_share.Network.EventLoop.Env.{Env, Act, event_sent}
use decent_share.Network.EventLoop.State.{EventLoop, World}
use decent_share.Network.EventLoop.Swarm.{attempt, attempt_or_panic, send_event}
use decent_share.Network.EventLoop.Behaviours.Trading.{create_parents, exchange, complete_trade}

abbrev pub LoopIs : EventLoop → World → Type 0
LoopIs s w = w.loop ≡ s

module _ (env : Env) (s : EventLoop) where
  attempt-LoopIs : (a : Act) → Keeps (LoopIs s) (attempt env a)
  unfolding attempt
  attempt-LoopIs a = record { at = λ w h. h }

  attempt_or_panic-LoopIs :
      (a : Act) (message : String) → Keeps (LoopIs s) (attempt_or_panic env a message)
  unfolding attempt_or_panic
  attempt_or_panic-LoopIs a message = search (keeps_rules, attempt-LoopIs)

  send_event-LoopIs : (e : Event) → Keeps (LoopIs s) (send_event env e)
  unfolding send_event
  send_event-LoopIs e = attempt_or_panic-LoopIs (event_sent e) _

  ruleset acts = (keeps_rules, attempt_or_panic-LoopIs, send_event-LoopIs)

  create_parents-LoopIs : (p : Option FilePath) → Keeps (LoopIs s) (create_parents env p)
  unfolding create_parents
  create_parents-LoopIs none = search acts
  create_parents-LoopIs (some p) = search acts

  exchange-LoopIs :
      (file : Option Bytes) (b : Bytes) (path : FilePath)
      → Keeps (LoopIs s) (exchange env file b path)
  unfolding exchange
  exchange-LoopIs none b path = search acts
  exchange-LoopIs (some file) b path = search (acts, create_parents-LoopIs)

  pub complete_trade-LoopIs :
      (entry : Option (Bytes × FilePath)) (r : TradeResponse) (channel : Channel) (peer : PeerId)
      → Keeps (LoopIs s) (complete_trade env entry r channel peer)
  unfolding complete_trade
  complete_trade-LoopIs none r channel peer = search acts
  complete_trade-LoopIs (some (b, path)) r channel peer = search (acts, exchange-LoopIs)
