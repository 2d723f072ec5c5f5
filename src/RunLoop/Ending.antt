-- ===== src/RunLoop/Ending.antt =====
-- waltz/src/actor_context.rs: what the end of a task does to the objects it shares: the registries
-- that it is in, its own mailbox, and the mailboxes of its watchers.
use waltz.Base.{ℕ, ◌-◌, ◌<◌, ◌≡◌, refl, true, false, none, [], ◌++◌, All, replicate, ap, ◌∙◌}
use waltz.Base.Cells.{update, update_self}
use waltz.Base.Map.{values}
use waltz.Extern.Flume.{Flume}
use waltz.Extern.Oneshot.{Oneshot}
use waltz.Extern.Watch.{Watch}
use waltz.Actor.{Incoming, terminated}
use waltz.Mailbox.{split, take_watchers, take}
use waltz.Mailbox.Registry.{watchers_of}
use waltz.Context.{take_watched}
use waltz.World.{Task, terminating, World, stop_children}
use waltz.RunLoop.Terminate.{drain, terminate, finish}
use waltz.RunLoop.Notifying.{
  aimed, registered, deregister-All, queue, is_gone_at, signal_all-queue, deregister-wires,
  signal_all-registries, take_watchers-cases,
}

module _ {M S : Type 0} ⦃flume : Flume (Incoming M)⦄ ⦃oneshot : Oneshot (Unit {0})⦄
    ⦃watch : Watch⦄ where
  -- The first half of the termination, for a context whose stop channel has a receiver: the mailbox
  -- takes no more items and is empty, the actor is in the registry of none of the actors that it
  -- watched and watches none, its children are told to stop, and the task waits for the channel from
  -- which it has dropped its own receiver.
  pub terminate_lem :
      (t : Task S) (w : World M S)
      → 0 < watch.receivers (w.stops t.context.stopping)
      → let (t', w') = terminate t w in
        (is_gone_at t.mailbox.incoming_rx w'.heap ≡ true)
        × (queue t.mailbox.incoming_rx w'.heap ≡ [])
        × All (λ r. registered t.actor_id w'.heap r ≡ false) (values t.context.watched)
        × (t'.context.watched ≡ [])
        × (watch.has_changed (w'.stops t.context.stopping) ≡ true)
        × (watch.receivers (w'.stops t.context.stopping)
            ≡ watch.receivers (w.stops t.context.stopping) - 1)
        × (t'.phase ≡ terminating t.context.stopping)
  unfolding terminate drain split stop_children take_watched
  terminate_lem t w used =
      let rx = t.mailbox.incoming_rx in
      let own = t.context.stopping in
      let drained = (drain rx w.heap).1 in
      let wires = deregister-wires t.actor_id (values t.context.watched) drained in
      (
        ap (λ ws. flume.disconnected (ws.channels rx)) wires
            ∙ ap flume.disconnected (update_self w.heap.wires.channels rx _)
            ∙ flume.disconnected-close _,
        ap (λ ws. flume.queued (ws.channels rx)) wires
            ∙ ap flume.queued (update_self w.heap.wires.channels rx _)
            ∙ flume.queued-close _
            ∙ flume.queued-drain _,
        deregister-All t.actor_id (values t.context.watched) drained,
        refl,
        ap watch.has_changed (update_self (update w.stops w.next watch.channel) own _)
            ∙ watch.has_changed-drop _
            ∙ watch.has_changed-send _ used,
        ap watch.receivers (update_self (update w.stops w.next watch.channel) own _)
            ∙ watch.receivers-drop _
            ∙ ap (λ n. n - 1) (watch.receivers-send _),
        refl,
      )

  -- The second half: whatever the task's watchers are when it ends, registration is closed, and each
  -- mailbox that is still open, however full, holds one more signal for every watcher that it
  -- belongs to, behind what was queued.
  pub finish_lem :
      (t : Task S) (w : World M S) (loc : ℕ)
      → is_gone_at loc w.heap ≡ false
      → let (t', w') = finish t w in
        let own = t.mailbox.watcher_registry.registry in
        (w'.heap.registries own ≡ none)
        × (queue loc w'.heap
            ≡ queue loc w.heap
              ++ replicate
                  (aimed loc (watchers_of (w.heap.registries own)))
                  (terminated t.actor_id))
        × (is_gone_at loc w'.heap ≡ false)
  unfolding finish split take_watchers
  finish_lem t w loc open_ =
      let r = t.mailbox.watcher_registry in
      let (taken, closed, wires) = take_watchers-cases r w.heap in
      let still = ap (λ ws. flume.disconnected (ws.channels loc)) wires ∙ open_ in
      let (signaled_, end) =
        signal_all-queue t.actor_id (take r w.heap).0 loc (take r w.heap).1 still in
      (
        ap (λ rs. rs r.registry)
              (signal_all-registries t.actor_id (take r w.heap).0 (take r w.heap).1)
            ∙ closed,
        signaled_
            ∙ ap
                (λ ws.
                  flume.queued (ws.channels loc)
                  ++ replicate (aimed loc (take r w.heap).0) (terminated t.actor_id))
                wires
            ∙ ap (λ ws. queue loc w.heap ++ replicate (aimed loc ws) (terminated t.actor_id)) taken,
        end,
      )
