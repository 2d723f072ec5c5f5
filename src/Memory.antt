-- ===== src/Memory.antt =====
-- The objects that actors share through `Arc`s and channels, and the references to them: the types of
-- waltz/src/mailbox.rs, waltz/src/actor_ref.rs and the sink of waltz/src/actor_system.rs. An object is
-- a cell, and a reference to it holds the cell's location, so that clones share it.
use waltz.Base.{ℕ, Option, List}
use waltz.Base.Cells.{Cells}
use waltz.Base.Map.{Map}
use waltz.Extern.Flume.{Flume}
use waltz.Extern.Oneshot.{Oneshot}
use waltz.Quota.{Quota}
use waltz.Quota.Sender.{CountedSender, Wires}
use waltz.Actor.{ActorId, Incoming}

-- The location of an `Arc<Mutex<Option<HashMap<ActorId, Watcher>>>>`.
pub record WatcherRegistry : Type 0 where
  pub registry : ℕ

pub record MailboxHandle : Type 0 where
  pub incoming_tx : CountedSender
  pub watcher_registry : WatcherRegistry

-- `incoming_rx` is the location of the channel.
pub record Mailbox : Type 0 where
  pub incoming_rx : ℕ
  pub watcher_registry : WatcherRegistry
  pub quota : Quota

pub record ClosedMailbox : Type 0 where
  pub watcher_registry : WatcherRegistry

-- `terminated_tx` is the location of the mutex with the oneshot's sender, `stopping_tx` that of the
-- root's stop channel.
pub record RootTerminatedSink : Type 0 where
  pub terminated_tx : ℕ
  pub stopping_tx : ℕ

-- The two implementors of the trait.
pub data TerminatedSink : Type 0 where
  counted_sender : CountedSender → TerminatedSink
  root_sink : RootTerminatedSink → TerminatedSink

pub record Watcher : Type 0 where
  pub watcher_id : ActorId
  pub terminated_sink : TerminatedSink

pub data SendError : Type 0 where
  mailbox_full : SendError
  actor_terminated : SendError

pub data ActorTerminated : Type 0 where
  actor_gone : ActorTerminated

-- What the warning `dead letter` reports.
pub record DeadLetter : Type 0 where
  pub actor_id : ActorId
  pub error : SendError

-- The messages of all actors are drawn from one type `M`. `registries` reads `none` once
-- registration is closed; `terminated_txs` reads `none` once the sender was taken.
pub record Heap (M : Type 0) ⦃flume : Flume (Incoming M)⦄ ⦃oneshot : Oneshot (Unit {0})⦄
    : Type 0 where
  pub wires : Wires (Incoming M)
  pub registries : Cells (Option (Map Watcher))
  pub terminated_txs : Cells (Option ℕ)
  pub oneshots : Cells oneshot.Channel
  pub dead_letters : List DeadLetter
