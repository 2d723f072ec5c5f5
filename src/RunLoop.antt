-- ===== src/RunLoop.antt =====
-- waltz/src/actor_context.rs: the task of an actor, step by step. A step runs from one `await` to the
-- next: `poll_` followed by the name of the phase. `now` is the instant of the step.
pub mod Terminate
pub mod Stopping
pub mod Limit
pub mod Kept
pub mod Liveness
pub mod Signals
pub mod Notifying
pub mod Ending
use waltz.Base.{
  ℕ, ◌+◌, Bool, true, false, Option, none, some, List, [], ◌∷◌, leb, ◌==◌, if◌then◌else◌,
}
use waltz.Base.Cells.{update}
use waltz.Base.Duration.{Duration}
use waltz.Extern.Flume.{Flume}
use waltz.Extern.Oneshot.{Oneshot}
use waltz.Extern.Watch.{Watch}
use waltz.Actor.{ActorId, Incoming, message, terminated, Control, continue, stop}
use waltz.Restart.{Instant, Restart, after, limit_exceeded, not_configured, next_restart}
use waltz.Mailbox.{recv}
use waltz.Context.{Context, take_watched_for}
use waltz.World.{
  Outcome, value, error, panic, Behaviour, Phase, initializing, receiving, stopping_children,
  backing_off, terminating, finished, Task, Event, state_dropped, World, run_script,
  stop_children as send_stop,
}
use Terminate.{terminate, poll_terminating}

-- `catch_and_log`, up to the log.
unfoldable pub catch_and_log : {A : Type 0} → Outcome A → Option A
catch_and_log (value a) = some a
catch_and_log error = none
catch_and_log panic = none

module _ {M S : Type 0} ⦃flume : Flume (Incoming M)⦄ ⦃oneshot : Oneshot (Unit {0})⦄
    ⦃watch : Watch⦄ where
  -- `parent_stopping_rx.has_changed().unwrap_or(true)`, and whether `stopped_by_parent` is ready.
  abbrev pub stopped_by_parent : Task S → World M S → Bool
  stopped_by_parent t w = watch.has_changed (w.stops t.parent_stopping_rx)

  -- The restart that `next_restart` granted, from the first probe of the parent to the `await`.
  unfoldable pub begin_restart : Duration → Task S → World M S → Task S × World M S
  begin_restart delay t w =
      let (old, c, w') = send_stop t.context w in
      if stopped_by_parent t w
      then terminate t w
      else (record t { context = c; phase = stopping_children delay old }, w')

  unfoldable pub after_decision : Restart → Task S → World M S → Task S × World M S
  unfolding begin_restart
  after_decision (after delay) t w = begin_restart delay t w
  after_decision limit_exceeded t w = terminate t w
  after_decision not_configured t w = terminate t w

  -- What follows the inner loop after a failure.
  unfoldable pub fail : Option Instant → Instant → Task S → World M S → Task S × World M S
  unfolding after_decision
  fail up_since now t w =
      let (decision, restarts) =
        next_restart t.config.supervision_strategy up_since now t.restarts in
      after_decision decision (record t { restarts = restarts }) w

  -- What `init` returned: the state to receive with, or a failure.
  unfoldable pub after_init : Option S → Instant → Task S → World M S → Task S × World M S
  unfolding fail
  after_init (some state) now t w = (record t { phase = receiving state now }, w)
  after_init none now t w = fail none now t w

  unfoldable pub poll_initializing :
      Behaviour M S → Instant → Task S → World M S → Task S × World M S
  unfolding after_init catch_and_log
  poll_initializing behaviour now t w =
      let (outcome, c, w') = run_script behaviour.init t.context w in
      after_init (catch_and_log outcome) now (record t { context = c }) w'

  -- What `receive` returned.
  unfoldable pub after_receive :
      Option (Control S) → Instant → Instant → Task S → World M S → Task S × World M S
  unfolding fail
  after_receive (some (continue state)) up_since now t w =
      (record t { phase = receiving state up_since }, w)
  after_receive (some stop) up_since now t w = terminate t w
  after_receive none up_since now t w = fail (some up_since) now t w

  -- `actor.receive(&context, incoming, state)` and what follows.
  unfoldable pub handle :
      Behaviour M S → S → Instant → Instant → Incoming M → Task S → World M S → Task S × World M S
  unfolding after_receive catch_and_log
  handle behaviour state up_since now incoming t w =
      let (outcome, c, w') = run_script (behaviour.receive incoming state) t.context w in
      after_receive (catch_and_log outcome) up_since now (record t { context = c }) w'

  -- The incoming item: a terminated signal for an actor that is not watched is dropped.
  unfoldable pub deliver :
      Behaviour M S → S → Instant → Instant → Incoming M → Task S → World M S → Task S × World M S
  unfolding handle
  deliver behaviour state up_since now (message m) t w =
      handle behaviour state up_since now (message m) t w
  deliver behaviour state up_since now (terminated other) t w =
      let (watched, c) = take_watched_for other t.context in
      elim watched [
        | true ↦ handle behaviour state up_since now (terminated other) (record t { context = c }) w
        | false ↦ (record t { context = c }, w)
      ]

  -- The biased `select!` of the inner loop: the parent first, then the mailbox. Without either the
  -- task waits.
  unfoldable pub poll_receiving :
      Behaviour M S → S → Instant → Instant → Task S → World M S → Task S × World M S
  unfolding deliver
  poll_receiving behaviour state up_since now t w = elim (stopped_by_parent t w) [
    | true ↦ terminate t (record w { log = state_dropped t.actor_id ∷ w.log })
    | false ↦ elim (recv t.mailbox w.heap) [
      | none ↦ (t, w)
      | some (incoming, h) ↦ deliver behaviour state up_since now incoming t (record w { heap = h })
    ]
  ]

  -- Behind `stop_children`: it resolves once the channel has no receiver.
  unfoldable pub poll_stopping_children :
      Duration → ℕ → Instant → Task S → World M S → Task S × World M S
  poll_stopping_children delay old now t w =
      if watch.receivers (w.stops old) == 0
      then (if delay == 0
          then (if stopped_by_parent t w
              then terminate t w
              else (record t { phase = initializing }, w))
          else (record t { phase = backing_off (now + delay) }, w))
      else (t, w)

  -- The biased `select!` of the backoff.
  unfoldable pub poll_backing_off : Instant → Instant → Task S → World M S → Task S × World M S
  poll_backing_off until now t w =
      if stopped_by_parent t w
      then terminate t w
      else (if leb until now then (record t { phase = initializing }, w) else (t, w))

  unfoldable pub poll_at :
      Phase S → (ℕ → Behaviour M S) → Instant → Task S → World M S → Task S × World M S
  unfolding poll_initializing poll_receiving poll_stopping_children poll_backing_off
  poll_at initializing behaviours now t w = poll_initializing (behaviours t.behaviour) now t w
  poll_at (receiving state up_since) behaviours now t w =
      poll_receiving (behaviours t.behaviour) state up_since now t w
  poll_at (stopping_children delay old) behaviours now t w =
      poll_stopping_children delay old now t w
  poll_at (backing_off until) behaviours now t w = poll_backing_off until now t w
  poll_at (terminating old) behaviours now t w = poll_terminating old t w
  poll_at finished behaviours now t w = (t, w)

  -- One step of the task.
  unfoldable pub poll : (ℕ → Behaviour M S) → Instant → Task S → World M S → Task S × World M S
  unfolding poll_at
  poll behaviours now t w = poll_at t.phase behaviours now t w
