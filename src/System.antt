-- ===== src/System.antt =====
-- waltz/src/actor_system.rs: the root actor, and the wait for its termination.
pub mod Signaling
pub mod Laws
pub mod Waiting
pub mod Sound
pub mod Runs
pub mod Awaited
use waltz.Base.{ℕ, ◌+◌, Option, none, some, Result, ok, err}
use mathlib.Core.Option
use waltz.Base.Cells.{update}
use waltz.Extern.Flume.{Flume}
use waltz.Extern.Oneshot.{Oneshot, RecvError}
use waltz.Extern.Watch.{Watch}
use waltz.Actor.{ActorId, Incoming}
use waltz.Config.{ActorConfig}
use waltz.Memory.{RootTerminatedSink, root_sink, ActorTerminated, Heap}
use waltz.Mailbox.{add, send_root_sink}
use waltz.Reference.{ActorRef, watcher_registry}
use waltz.World.{World, spawn}

-- `terminated_rx` is the location of the oneshot.
pub record ActorSystem : Type 0 where
  pub root : ActorRef
  pub terminated_rx : ℕ

-- `Error::WatchRoot`.
pub data Error : Type 0 where
  watch_root : RecvError → Error

module _ {M : Type 0} ⦃flume : Flume (Incoming M)⦄ ⦃oneshot : Oneshot (Unit {0})⦄ where
  unfoldable pub signal_at_once :
      RootTerminatedSink
      → ActorId
      → Result (Unit {0}) ActorTerminated
      → Heap M
      → Result (Unit {0}) ActorTerminated × Heap M
  signal_at_once sink root_id (ok _) h = (ok tt, h)
  signal_at_once sink root_id (err e) h = send_root_sink sink root_id h

  -- The part of `spawn_root` behind `spawn`; the root's task may have run in between. `watcher_id` is
  -- the new id. An error is the panic of `expect`.
  unfoldable pub register_root :
      ActorRef → RootTerminatedSink → ActorId → Heap M → Result (Unit {0}) ActorTerminated × Heap M
  register_root root sink watcher_id h =
      let (registration, h') =
        add (watcher_registry root)
          (record { watcher_id = watcher_id; terminated_sink = root_sink sink }) h in
      signal_at_once sink root.actor_id registration h'

  -- One poll of `ActorSystem::terminated`.
  unfoldable pub poll_terminated : ActorSystem → Heap M → Option (Result (Unit {0}) Error)
  poll_terminated system h =
      Option.map (λ received. elim received [ ok _ ↦ ok tt | err e ↦ err (watch_root e) ])
        (oneshot.poll (h.oneshots system.terminated_rx))

module _ {M S : Type 0} ⦃flume : Flume (Incoming M)⦄ ⦃oneshot : Oneshot (Unit {0})⦄
    ⦃watch : Watch⦄ where
  -- `spawn_root` up to and with `spawn`: the oneshot and the mutex around its sender are made at
  -- `next`, the stop channel behind them. The channel's first receiver is moved into the task.
  unfoldable pub spawn_root :
      ℕ → ActorConfig → World M S → ActorSystem × RootTerminatedSink × World M S
  spawn_root behaviour config w =
      let (root, w') = spawn (w.next + 1) behaviour config (record w {
        heap = record w.heap {
          oneshots = update w.heap.oneshots w.next oneshot.channel;
          terminated_txs = update w.heap.terminated_txs w.next (some w.next);
        };
        stops = update w.stops (w.next + 1) watch.channel;
        next = w.next + 2;
      }) in
      (
        record { root = root; terminated_rx = w.next },
        record { terminated_tx = w.next; stopping_tx = w.next + 1 },
        w',
      )
