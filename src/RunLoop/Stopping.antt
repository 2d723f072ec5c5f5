-- ===== src/RunLoop/Stopping.antt =====
-- waltz/src/actor_context.rs: what holds of every step of a task, in whichever phase it is.
use waltz.Base.{ℕ, ◌≡◌, refl, ◌⊎◌, inl, inr, true, false, ◌==◌, Bool-cases}
use waltz.Extern.Flume.{Flume}
use waltz.Extern.Oneshot.{Oneshot}
use waltz.Extern.Watch.{Watch}
use waltz.Actor.{Incoming}
use waltz.Restart.{Instant}
use waltz.World.{
  Behaviour, Phase, initializing, receiving, stopping_children, backing_off, terminating, finished,
  Task, World,
}
use waltz.RunLoop.{
  stopped_by_parent, poll_receiving, poll_stopping_children, poll_backing_off, poll_at, poll,
}
use waltz.RunLoop.Terminate.{terminate, finish, poll_terminating}

-- The actor's code runs no more.
abbrev pub IsEnding : {S : Type 0} → Phase S → Type 0
IsEnding initializing = ⊥
IsEnding (receiving state up_since) = ⊥
IsEnding (stopping_children delay old) = ⊥
IsEnding (backing_off until) = ⊥
IsEnding (terminating old) = Unit {0}
IsEnding finished = Unit {0}

-- The first run of `init` has begun to be prepared, or a restart's.
abbrev pub IsInitializing : {S : Type 0} → Phase S → Type 0
IsInitializing initializing = Unit {0}
IsInitializing (receiving state up_since) = ⊥
IsInitializing (stopping_children delay old) = ⊥
IsInitializing (backing_off until) = ⊥
IsInitializing (terminating old) = ⊥
IsInitializing finished = ⊥

-- The task has ended, or awaits children that are still running, by the receivers of each channel.
abbrev pub IsIdle : {S : Type 0} → (ℕ → ℕ) → Phase S → Type 0
IsIdle receivers initializing = ⊥
IsIdle receivers (receiving state up_since) = ⊥
IsIdle receivers (stopping_children delay old) = (receivers old == 0) ≡ false
IsIdle receivers (backing_off until) = ⊥
IsIdle receivers (terminating old) = (receivers old == 0) ≡ false
IsIdle receivers finished = Unit {0}

abbrev pub IsBackingOff : {S : Type 0} → Phase S → Type 0
IsBackingOff initializing = ⊥
IsBackingOff (receiving state up_since) = ⊥
IsBackingOff (stopping_children delay old) = ⊥
IsBackingOff (backing_off until) = Unit {0}
IsBackingOff (terminating old) = ⊥
IsBackingOff finished = ⊥

module _ {M S : Type 0} ⦃flume : Flume (Incoming M)⦄ ⦃oneshot : Oneshot (Unit {0})⦄
    ⦃watch : Watch⦄ where
  poll_at-stopped :
      (behaviours others : ℕ → Behaviour M S) (now : Instant) (t : Task S) (w : World M S)
      (phase : Phase S)
      → stopped_by_parent t w ≡ true
      → ¬ IsInitializing phase
      → let (t', w') = poll_at phase behaviours now t w in
        (poll_at phase others now t w ≡ (t', w'))
        × (IsEnding t'.phase
            ⊎ (IsBackingOff t'.phase × (¬ IsBackingOff phase))
            ⊎ ((t' ≡ t) × (w' ≡ w) × IsIdle (λ loc. watch.receivers (w.stops loc)) phase))
  unfolding poll_at poll_receiving poll_backing_off poll_stopping_children poll_terminating
      terminate finish
  poll_at-stopped behaviours others now t w initializing stopped started = absurd (started tt)
  poll_at-stopped behaviours others now t w (receiving state up_since) stopped started =
      rw (stopped, poll_at, poll_receiving) (refl, inl tt)
  poll_at-stopped behaviours others now t w (stopping_children delay old) stopped started =
      elim (Bool-cases (watch.receivers (w.stops old) == 0)) [
        | inr running ↦
            rw (running, poll_at, poll_stopping_children, poll_terminating)
              (refl, inr (inr (refl, refl, refl)))
        | inl ended ↦ elim (Bool-cases (delay == 0)) [
          | inl now_ ↦ rw (ended, now_, stopped, poll_at, poll_stopping_children) (refl, inl tt)
          | inr later ↦
              rw (ended, later, poll_at, poll_stopping_children) (refl, inr (inl (tt, λ b. b)))
        ]
      ]
  poll_at-stopped behaviours others now t w (backing_off until) stopped started =
      rw (stopped, poll_at, poll_backing_off) (refl, inl tt)
  poll_at-stopped behaviours others now t w (terminating old) stopped started =
      elim (Bool-cases (watch.receivers (w.stops old) == 0)) [
        | inr running ↦
            rw (running, poll_at, poll_stopping_children, poll_terminating)
              (refl, inr (inr (refl, refl, refl)))
        | inl ended ↦ rw (ended, poll_at, poll_terminating) (refl, inl tt)
      ]
  poll_at-stopped behaviours others now t w finished stopped started =
      (refl, inr (inr (refl, refl, tt)))

  -- An actor whose parent stops it, or has ended, runs no more of its code: whichever phase the task
  -- is in, unless it is about to run `init`, its step is the same for all code. The step leads to the
  -- end of the task, or to the backoff from elsewhere, or it changes nothing, and then the task has ended or awaits
  -- children that are still running.
  pub poll-stopped :
      (behaviours others : ℕ → Behaviour M S) (now : Instant) (t : Task S) (w : World M S)
      → stopped_by_parent t w ≡ true
      → ¬ IsInitializing t.phase
      → let (t', w') = poll behaviours now t w in
        (poll others now t w ≡ (t', w'))
        × (IsEnding t'.phase
            ⊎ (IsBackingOff t'.phase × (¬ IsBackingOff t.phase))
            ⊎ ((t' ≡ t) × (w' ≡ w) × IsIdle (λ loc. watch.receivers (w.stops loc)) t.phase))
  unfolding poll
  poll-stopped behaviours others now t w stopped started =
      poll_at-stopped behaviours others now t w t.phase stopped started
