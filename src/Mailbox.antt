-- ===== src/Mailbox.antt =====
-- waltz/src/mailbox.rs: the mailbox of an actor. It is a channel of `Incoming`, a quota in front of it
-- for messages, and a registry of watchers.
pub mod Laws
pub mod Refinement
pub mod Registry
pub mod Interleaving
use waltz.Base.{
  ℕ, Bool, true, false, Option, none, some, List, [], ◌∷◌, Result, ok, err, map_err, if◌then◌else◌,
}
use waltz.Base.Cells.{update}
use waltz.Base.Map
use waltz.Base.Map.{Map, values}
use waltz.Extern.Flume.{Flume}
use waltz.Extern.Oneshot.{Oneshot}
use waltz.Quota.{Quota, Counts, new_bounded, new_unbounded, unreserve}
use waltz.Quota.Sender.{
  CountedSender, CountedSendError, full, disconnected, Wires, try_send_counted, try_send_uncounted,
}
use waltz.Actor.{ActorId, Incoming, message, terminated, is_message}
use waltz.Config.{MailboxCapacity, unbounded, bounded}
use waltz.Memory.{
  WatcherRegistry, MailboxHandle, Mailbox, ClosedMailbox, RootTerminatedSink, TerminatedSink,
  counted_sender, root_sink, Watcher, SendError, mailbox_full, actor_terminated, ActorTerminated,
  actor_gone, Heap,
}

-- `From<CountedSendError> for SendError`.
unfoldable pub from_counted : CountedSendError → SendError
from_counted (full f) = mailbox_full
from_counted (disconnected d) = actor_terminated

-- `MailboxHandle::terminated_sink`.
unfoldable pub terminated_sink : MailboxHandle → TerminatedSink
terminated_sink handle = counted_sender handle.incoming_tx

-- `Mailbox::split`: the channel's receiver and the watcher half.
unfoldable pub split : Mailbox → ℕ × ClosedMailbox
split mailbox = (mailbox.incoming_rx, record { watcher_registry = mailbox.watcher_registry })

-- The match of `make_mailbox` on the capacity.
unfoldable pub make_quota : MailboxCapacity → ℕ → Counts → Quota × Counts
make_quota unbounded loc counts = (new_unbounded, counts)
make_quota (bounded capacity) loc counts = new_bounded capacity loc counts

-- The `matches!` of `recv`: only a message releases its reservation.
unfoldable pub release_received : {M : Type 0} → Quota → Incoming M → Counts → Counts
release_received quota (message m) counts = unreserve quota counts
release_received quota (terminated id) counts = counts

module _ {M : Type 0} ⦃flume : Flume (Incoming M)⦄ ⦃oneshot : Oneshot (Unit {0})⦄ where
  -- `MailboxHandle::try_send_message`.
  unfoldable pub try_send_message :
      MailboxHandle → M → Heap M → Result (Unit {0}) SendError × Heap M
  try_send_message handle m h =
      let (result, w) = try_send_counted handle.incoming_tx (message m) h.wires in
      (map_err from_counted result, record h { wires = w })

  -- One poll of `Mailbox::recv`: `none` while nothing has arrived. The actor's own reference keeps a
  -- sender alive, so the receiver is never told that all senders are gone.
  unfoldable pub recv : Mailbox → Heap M → Option (Incoming M × Heap M)
  recv mailbox h = elim (flume.recv (h.wires.channels mailbox.incoming_rx)) [
    | none ↦ none
    | some (incoming, c) ↦ some (
      incoming,
      record h {
        wires = record {
          counts = release_received mailbox.quota incoming h.wires.counts;
          channels = update h.wires.channels mailbox.incoming_rx c;
        };
      },
    )
  ]

  -- `WatcherRegistry::add`.
  unfoldable pub add :
      WatcherRegistry → Watcher → Heap M → Result (Unit {0}) ActorTerminated × Heap M
  add r watcher h = elim (h.registries r.registry) [
    | none ↦ (err actor_gone, h)
    | some watchers ↦ (
      ok tt,
      record h {
        registries =
            update h.registries r.registry
              (some (Map.or_insert watcher.watcher_id watcher watchers));
      },
    )
  ]

  -- `WatcherRegistry::remove`.
  unfoldable pub remove : WatcherRegistry → ActorId → Heap M → Heap M
  remove r watcher_id h = elim (h.registries r.registry) [
    | none ↦ h
    | some watchers ↦ record h {
      registries = update h.registries r.registry (some (Map.remove watcher_id watchers));
    }
  ]

  -- `WatcherRegistry::take`, in the order in which the hash map yields its values.
  unfoldable pub take : WatcherRegistry → Heap M → List Watcher × Heap M
  take r h = elim (h.registries r.registry) [
    | none ↦ ([], h)
    | some watchers ↦
        (values watchers, record h { registries = update h.registries r.registry none })
  ]

  -- `ClosedMailbox::take_watchers`.
  unfoldable pub take_watchers : ClosedMailbox → Heap M → List Watcher × Heap M
  unfolding take
  take_watchers closed h = take closed.watcher_registry h

  -- The sink of a mailbox.
  unfoldable pub send_counted_sink :
      CountedSender → ActorId → Heap M → Result (Unit {0}) ActorTerminated × Heap M
  send_counted_sink sender actor_id h =
      let (result, w) = try_send_uncounted sender (terminated actor_id) h.wires in
      (map_err (λ _. actor_gone) result, record h { wires = w })

  -- The sink of the root (waltz/src/actor_system.rs): the oneshot's sender is taken under the lock,
  -- so that it is used once.
  unfoldable pub send_root_sink :
      RootTerminatedSink → ActorId → Heap M → Result (Unit {0}) ActorTerminated × Heap M
  send_root_sink sink actor_id h = elim (h.terminated_txs sink.terminated_tx) [
    | none ↦ (err actor_gone, h)
    | some tx ↦ (
      ok tt,
      record h {
        terminated_txs = update h.terminated_txs sink.terminated_tx none;
        oneshots = update h.oneshots tx (oneshot.send tt (h.oneshots tx)).1;
      },
    )
  ]

  unfoldable pub send_sink :
      TerminatedSink → ActorId → Heap M → Result (Unit {0}) ActorTerminated × Heap M
  unfolding send_counted_sink send_root_sink
  send_sink (counted_sender sender) actor_id h = send_counted_sink sender actor_id h
  send_sink (root_sink sink) actor_id h = send_root_sink sink actor_id h

  -- `Watcher::send_terminated`.
  unfoldable pub send_terminated :
      Watcher → ActorId → Heap M → Result (Unit {0}) ActorTerminated × Heap M
  unfolding send_sink
  send_terminated watcher actor_id h = send_sink watcher.terminated_sink actor_id h

  -- `make_mailbox`. The count, the channel and the registry are new cells at `loc`.
  unfoldable pub make_mailbox : MailboxCapacity → ℕ → Heap M → MailboxHandle × Mailbox × Heap M
  make_mailbox capacity loc h =
      let (quota, counts) = make_quota capacity loc h.wires.counts in
      let registry : WatcherRegistry = record { registry = loc } in
      (
        record {
          incoming_tx = record { item_tx = loc; quota = quota };
          watcher_registry = registry;
        },
        record { incoming_rx = loc; watcher_registry = registry; quota = quota },
        record h {
          wires = record {
            counts = counts;
            channels = update h.wires.channels loc flume.unbounded;
          };
          registries = update h.registries loc (some []);
        },
      )
