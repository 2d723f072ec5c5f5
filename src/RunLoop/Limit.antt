-- ===== src/RunLoop/Limit.antt =====
-- waltz/src/actor_context.rs: the count of restarts in the steps of a task.
use waltz.Base.{
  ℕ, ◌≤◌, ◌≡◌, inl, inr, Option, none, some, leb, ◌==◌, Bool-cases, Option-cases, subst, sym,
}
use waltz.Extern.Flume.{Flume}
use waltz.Extern.Oneshot.{Oneshot}
use waltz.Extern.Watch.{Watch}
use waltz.Actor.{Incoming, message, terminated, Control, continue, stop}
use waltz.Config.{SupervisionStrategy, stop as no_restart, restart, IsValid}
use waltz.Restart.{Instant, Restart, after, limit_exceeded, not_configured, next_restart}
use waltz.Restart.Streak.{next_restart_bounds}
use waltz.Mailbox.{recv}
use waltz.Context.{take_watched_for}
use waltz.World.{
  Behaviour, Phase, initializing, receiving, stopping_children, backing_off, terminating, finished,
  Task, World,
}
use waltz.RunLoop.{
  stopped_by_parent, begin_restart, after_decision, fail, after_init, poll_initializing,
  after_receive, handle, deliver, poll_receiving, poll_stopping_children, poll_backing_off, poll_at,
  poll,
}
use waltz.RunLoop.Terminate.{terminate, finish, poll_terminating}

-- The count that a strategy allows.
abbrev pub Within : SupervisionStrategy → ℕ → Type 0
Within no_restart restarts = restarts ≡ 0
Within (restart policy) restarts = IsValid policy × (restarts ≤ policy.max_restarts)

next_restart-Within :
    (strategy : SupervisionStrategy) (up_since : Option Instant) (now restarts : ℕ)
    → Within strategy restarts
    → Within strategy (next_restart strategy up_since now restarts).1
unfolding next_restart
next_restart-Within no_restart up_since now restarts h = h
next_restart-Within (restart policy) up_since now restarts (v, le) =
    (v, (next_restart_bounds policy up_since now restarts v le).0)

-- The strategy is the given one and allows the count.
abbrev pub Obeys : {S : Type 0} → SupervisionStrategy → Task S → Type 0
Obeys strategy t = (t.config.supervision_strategy ≡ strategy) × Within strategy t.restarts

module _ {M S : Type 0} ⦃flume : Flume (Incoming M)⦄ ⦃oneshot : Oneshot (Unit {0})⦄
    ⦃watch : Watch⦄ where
  terminate-Obeys :
      (strategy : SupervisionStrategy) (t : Task S) (w : World M S)
      → Obeys strategy t
      → Obeys strategy (terminate t w).0
  unfolding terminate
  terminate-Obeys strategy t w h = h

  after_decision-Obeys :
      (strategy : SupervisionStrategy) (decision : Restart) (t : Task S) (w : World M S)
      → Obeys strategy t
      → Obeys strategy (after_decision decision t w).0
  unfolding after_decision begin_restart
  after_decision-Obeys strategy (after delay) t w h = elim (Bool-cases (stopped_by_parent t w)) [
    | inl e ↦ rw (e, begin_restart) (terminate-Obeys strategy t w h)
    | inr e ↦ rw (e, begin_restart) h
  ]
  after_decision-Obeys strategy limit_exceeded t w h = terminate-Obeys strategy t w h
  after_decision-Obeys strategy not_configured t w h = terminate-Obeys strategy t w h

  fail-Obeys :
      (strategy : SupervisionStrategy) (up_since : Option Instant) (now : Instant) (t : Task S)
      (w : World M S)
      → Obeys strategy t
      → Obeys strategy (fail up_since now t w).0
  unfolding fail
  fail-Obeys strategy up_since now t w (same, within) = after_decision-Obeys strategy _ _ w (
    same,
    subst (λ s. Within s (next_restart t.config.supervision_strategy up_since now t.restarts).1)
        same
        (next_restart-Within t.config.supervision_strategy up_since now t.restarts
          (subst (λ s. Within s t.restarts) (sym same) within)),
  )

  after_init-Obeys :
      (strategy : SupervisionStrategy) (state : Option S) (now : Instant) (t : Task S)
      (w : World M S)
      → Obeys strategy t
      → Obeys strategy (after_init state now t w).0
  unfolding after_init
  after_init-Obeys strategy (some state) now t w h = h
  after_init-Obeys strategy none now t w h = fail-Obeys strategy none now t w h

  after_receive-Obeys :
      (strategy : SupervisionStrategy) (control : Option (Control S)) (up_since now : Instant)
      (t : Task S) (w : World M S)
      → Obeys strategy t
      → Obeys strategy (after_receive control up_since now t w).0
  unfolding after_receive
  after_receive-Obeys strategy (some (continue state)) up_since now t w h = h
  after_receive-Obeys strategy (some stop) up_since now t w h = terminate-Obeys strategy t w h
  after_receive-Obeys strategy none up_since now t w h =
      fail-Obeys strategy (some up_since) now t w h

  deliver-Obeys :
      (strategy : SupervisionStrategy) (behaviour : Behaviour M S) (state : S)
      (up_since now : Instant) (incoming : Incoming M) (t : Task S) (w : World M S)
      → Obeys strategy t
      → Obeys strategy (deliver behaviour state up_since now incoming t w).0
  unfolding deliver handle
  deliver-Obeys strategy behaviour state up_since now (message m) t w h =
      after_receive-Obeys strategy _ up_since now _ _ h
  deliver-Obeys strategy behaviour state up_since now (terminated other) t w h =
      elim (Bool-cases (take_watched_for other t.context).0) [
        | inl e ↦ rw (e, deliver) (after_receive-Obeys strategy _ up_since now _ _ h)
        | inr e ↦ rw (e, deliver) h
      ]

  poll_receiving-Obeys :
      (strategy : SupervisionStrategy) (behaviour : Behaviour M S) (state : S)
      (up_since now : Instant) (t : Task S) (w : World M S)
      → Obeys strategy t
      → Obeys strategy (poll_receiving behaviour state up_since now t w).0
  unfolding poll_receiving
  poll_receiving-Obeys strategy behaviour state up_since now t w h =
      elim (Bool-cases (stopped_by_parent t w)) [
        | inl e ↦ rw (e, poll_receiving) (terminate-Obeys strategy t _ h)
        | inr e ↦ elim (Option-cases (recv t.mailbox w.heap)) [
          | inl idle ↦ rw (e, idle, poll_receiving) h
          | inr ((incoming, heap), arrived) ↦
              rw (e, arrived, poll_receiving)
                (deliver-Obeys strategy behaviour state up_since now incoming t _ h)
        ]
      ]

  poll_at-Obeys :
      (strategy : SupervisionStrategy) (phase : Phase S) (behaviours : ℕ → Behaviour M S)
      (now : Instant) (t : Task S) (w : World M S)
      → Obeys strategy t
      → Obeys strategy (poll_at phase behaviours now t w).0
  unfolding poll_at poll_initializing poll_stopping_children poll_backing_off poll_terminating
      finish
  poll_at-Obeys strategy initializing behaviours now t w h = after_init-Obeys strategy _ now _ _ h
  poll_at-Obeys strategy (receiving state up_since) behaviours now t w h =
      poll_receiving-Obeys strategy (behaviours t.behaviour) state up_since now t w h
  poll_at-Obeys strategy (stopping_children delay old) behaviours now t w h =
      elim (Bool-cases (watch.receivers (w.stops old) == 0)) [
        | inr running ↦ rw (running, poll_at, poll_stopping_children) h
        | inl ended ↦ elim (Bool-cases (delay == 0)) [
          | inr later ↦ rw (ended, later, poll_at, poll_stopping_children) h
          | inl at_once ↦ elim (Bool-cases (stopped_by_parent t w)) [
            | inl e ↦
                rw (ended, at_once, e, poll_at, poll_stopping_children)
                  (terminate-Obeys strategy t w h)
            | inr e ↦ rw (ended, at_once, e, poll_at, poll_stopping_children) h
          ]
        ]
      ]
  poll_at-Obeys strategy (backing_off until) behaviours now t w h =
      elim (Bool-cases (stopped_by_parent t w)) [
        | inl e ↦ rw (e, poll_at, poll_backing_off) (terminate-Obeys strategy t w h)
        | inr e ↦ elim (Bool-cases (leb until now)) [
          | inl over ↦ rw (e, over, poll_at, poll_backing_off) h
          | inr early ↦ rw (e, early, poll_at, poll_backing_off) h
        ]
      ]
  poll_at-Obeys strategy (terminating old) behaviours now t w h =
      elim (Bool-cases (watch.receivers (w.stops old) == 0)) [
        | inl ended ↦ rw (ended, poll_at, poll_terminating) h
        | inr running ↦ rw (running, poll_at, poll_terminating) h
      ]
  poll_at-Obeys strategy finished behaviours now t w h = h

  -- The count of consecutive restarts stays within the limit at every step: where the strategy allows
  -- the count (no restart without a policy, at most `max_restarts` with a valid one), a step of the
  -- task, whatever its phase and the actor's code, keeps the strategy and leaves a count it allows.
  pub poll-Obeys :
      (strategy : SupervisionStrategy) (behaviours : ℕ → Behaviour M S) (now : Instant) (t : Task S)
      (w : World M S)
      → Obeys strategy t
      → Obeys strategy (poll behaviours now t w).0
  unfolding poll
  poll-Obeys strategy behaviours now t w h = poll_at-Obeys strategy t.phase behaviours now t w h
