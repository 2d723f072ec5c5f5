-- ===== src/RunLoop/Terminate.antt =====
-- waltz/src/actor_context.rs: `terminate`, before and behind its `await`.
use waltz.Base.{ℕ, List, [], ◌∷◌, length, ◌==◌, if◌then◌else◌}
use waltz.Base.Cells.{update}
use waltz.Base.Map.{values}
use waltz.Extern.Flume.{Flume}
use waltz.Extern.Oneshot.{Oneshot}
use waltz.Extern.Watch.{Watch}
use waltz.Actor.{ActorId, Incoming}
use waltz.Memory.{WatcherRegistry, Watcher, Heap}
use waltz.Mailbox.{remove, split, take_watchers, send_terminated}
use waltz.Context.{take_watched}
use waltz.World.{
  Task, terminating, finished, Event, messages_dropped, actor_dropped, signaled, World,
  stop_children,
}

module _ {M : Type 0} ⦃flume : Flume (Incoming M)⦄ ⦃oneshot : Oneshot (Unit {0})⦄ where
  -- `for registry in context.take_watched().into_values() { registry.remove(actor_id) }`.
  unfoldable pub deregister : ActorId → List WatcherRegistry → Heap M → Heap M
  deregister actor_id [] h = h
  deregister actor_id (r ∷ rs) h = deregister actor_id rs (remove r actor_id h)

  -- The drain and the drop of the receiver: the items that were queued, which are dropped next.
  unfoldable pub drain : ℕ → Heap M → List (Incoming M) × Heap M
  drain rx h =
      let (drained, c) = flume.drain (h.wires.channels rx) in
      (
        drained,
        record h {
          wires = record h.wires { channels = update h.wires.channels rx (flume.close c) };
        },
      )

  -- `for watcher in closed_mailbox.take_watchers()`: a signal that cannot be sent is only logged.
  unfoldable pub signal_all : ActorId → List Watcher → Heap M → Heap M
  signal_all actor_id [] h = h
  signal_all actor_id (w ∷ ws) h = signal_all actor_id ws (send_terminated w actor_id h).1

abbrev pub signal_events : ActorId → List Watcher → List Event → List Event
signal_events actor_id [] log = log
signal_events actor_id (w ∷ ws) log =
    signal_events actor_id ws (signaled w.watcher_id actor_id ∷ log)

module _ {M S : Type 0} ⦃flume : Flume (Incoming M)⦄ ⦃oneshot : Oneshot (Unit {0})⦄
    ⦃watch : Watch⦄ where
  -- `terminate` up to the `await` of `stop_children`.
  unfoldable pub terminate : Task S → World M S → Task S × World M S
  unfolding deregister drain
  terminate t w =
      let (incoming_rx, closed_mailbox) = split t.mailbox in
      let (drained, h) = drain incoming_rx w.heap in
      let (watched, c) = take_watched t.context in
      let w' : World M S = record w {
        heap = deregister t.actor_id (values watched) h;
        log = messages_dropped t.actor_id (length drained) ∷ w.log;
      } in
      let (old, c', w'') = stop_children c w' in
      (record t { context = c'; phase = terminating old }, w'')

  -- The rest of `terminate`, and the end of the task, which drops its two receivers of the parent's
  -- channel. The context's drop drops both ends of its own channel.
  unfoldable pub finish : Task S → World M S → Task S × World M S
  unfolding signal_all
  finish t w =
      let (watchers, h) = take_watchers (split t.mailbox).1 w.heap in
      let own = t.context.stopping in
      let stops = update w.stops own (watch.drop_sender (watch.drop_receiver (w.stops own))) in
      (
        record t { phase = finished },
        record w {
          heap = signal_all t.actor_id watchers h;
          stops =
              update stops t.parent_stopping_rx
                (watch.drop_receiver (watch.drop_receiver (stops t.parent_stopping_rx)));
          log = signal_events t.actor_id watchers (actor_dropped t.actor_id ∷ w.log);
        },
      )

  -- The `await` resolves once the channel has no receiver, which proves that all children ended.
  unfoldable pub poll_terminating : ℕ → Task S → World M S → Task S × World M S
  unfolding finish
  poll_terminating old t w = if watch.receivers (w.stops old) == 0 then finish t w else (t, w)
