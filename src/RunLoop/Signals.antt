-- ===== src/RunLoop/Signals.antt =====
-- waltz/src/actor_context.rs: which terminated signals reach the code of the actor that watched.
use waltz.Base.{◌≡◌, refl, false, arith, ◌∙◌}
use waltz.Extern.Flume.{Flume}
use waltz.Extern.Oneshot.{Oneshot}
use waltz.Extern.Watch.{Watch}
use waltz.Actor.{ActorId, Incoming, terminated}
use waltz.Restart.{Instant}
use waltz.Reference.{ActorRef}
use waltz.Context.{take_watched_for, unwatch}
use waltz.Context.Watching.{watches, unwatch_lem, take_watched_for_lem}
use waltz.World.{Behaviour, Task, World}
use waltz.RunLoop.{deliver}

module _ {M S : Type 0} ⦃flume : Flume (Incoming M)⦄ ⦃oneshot : Oneshot (Unit {0})⦄
    ⦃watch : Watch⦄ where
  deliver_stale :
      (behaviour : Behaviour M S) (state : S) (up_since now : Instant) (other : ActorId)
      (t : Task S) (w : World M S)
      → (take_watched_for other t.context).0 ≡ false
      → deliver behaviour state up_since now (terminated other) t w
        ≡ (record t { context = (take_watched_for other t.context).1 }, w)
  unfolding deliver
  deliver_stale behaviour state up_since now other t w e = rw (e, deliver) refl

  -- A terminated signal that was in the mailbox when the actor was unwatched is dropped when it
  -- comes: `receive` is not run, so that for all actor code the step leaves the world, the mailbox
  -- and the phase as they are, and afterwards the actor watches the same others as before.
  pub unwatch-deliver :
      (behaviour : Behaviour M S) (state : S) (up_since now : Instant) (other : ActorRef)
      (id : ActorId) (t : Task S) (w : World M S)
      → let (c, h) = unwatch other t.context w.heap in
        let w1 : World M S = record w { heap = h } in
        let t1 : Task S = record t { context = c } in
        let (t', w') = deliver behaviour state up_since now (terminated other.actor_id) t1 w1 in
        (w' ≡ w1)
        × (t'.phase ≡ t.phase)
        × (t'.restarts ≡ t.restarts)
        × (watches t'.context id ≡ watches c id)
  unwatch-deliver behaviour state up_since now other id t w =
      let (c, h) = unwatch other t.context w.heap in
      let taken = (take_watched_for_lem c other.actor_id id).2 in
      let kept = (unwatch_lem other t.context w.heap id).1 in
      let gone = (unwatch_lem other t.context w.heap id).0 in
      rw
        (deliver_stale behaviour state up_since now other.actor_id (record t { context = c })
          (record w { heap = h }) gone)
        (refl, refl, refl, taken ∙ ground (arith, kept))
