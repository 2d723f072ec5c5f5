-- ===== src/RunLoop/Liveness.antt =====
-- waltz/src/actor_context.rs: a task that is stopped ends.
use waltz.Base.{ℕ, ◌+◌, ◌-◌, ◌≡◌, refl, ap, ◌∙◌, inl, inr, ◌∷◌, true, ◌==◌, Bool-cases, arith}
use waltz.Base.Cells.{update, update_self}
use waltz.Extern.Flume.{Flume}
use waltz.Extern.Oneshot.{Oneshot}
use waltz.Extern.Watch.{Watch}
use waltz.Actor.{Incoming}
use waltz.Restart.{Instant}
use waltz.Context.{take_watched}
use waltz.World.{
  Behaviour, Phase, initializing, receiving, stopping_children, backing_off, terminating, finished,
  Task, World, stop_children, state_dropped,
}
use waltz.RunLoop.{
  stopped_by_parent, poll_receiving, poll_stopping_children, poll_backing_off, poll_at, poll,
}
use waltz.RunLoop.Terminate.{terminate, finish, poll_terminating}

-- No child of the task is left, by the receivers of each channel: of its own channel the context has
-- the last receiver, and none is left of one that it has replaced.
abbrev pub IsAlone : {S : Type 0} → (ℕ → ℕ) → ℕ → Phase S → Type 0
IsAlone receivers own initializing = ⊥
IsAlone receivers own (receiving state up_since) = receivers own ≡ 1
IsAlone receivers own (stopping_children delay old) = (receivers old ≡ 0) × (receivers own ≡ 1)
IsAlone receivers own (backing_off until) = receivers own ≡ 1
IsAlone receivers own (terminating old) = receivers old ≡ 0
IsAlone receivers own finished = Unit {0}

module _ {M S : Type 0} ⦃flume : Flume (Incoming M)⦄ ⦃oneshot : Oneshot (Unit {0})⦄
    ⦃watch : Watch⦄ where
  -- The phase behind three polls, at any instants.
  abbrev pub poll_thrice :
      (ℕ → Behaviour M S) → Instant → Instant → Instant → Task S → World M S → Task S × World M S
  poll_thrice behaviours first second third t w =
      let (t', w') = poll behaviours first t w in
      let (t'', w'') = poll behaviours second t' w' in poll behaviours third t'' w''

  poll-finished :
      (behaviours : ℕ → Behaviour M S) (now : Instant) (t : Task S) (w : World M S)
      → t.phase ≡ finished
      → poll behaviours now t w ≡ (t, w)
  unfolding poll poll_at
  poll-finished behaviours now t w e = rw (e, poll, poll_at) refl

  poll-terminating :
      (behaviours : ℕ → Behaviour M S) (now : Instant) (old : ℕ) (t : Task S) (w : World M S)
      → t.phase ≡ terminating old
      → watch.receivers (w.stops old) ≡ 0
      → (poll behaviours now t w).0.phase ≡ finished
  unfolding poll poll_at poll_terminating finish
  poll-terminating behaviours now old t w e left =
      rw (e, poll, poll_at, left, poll_terminating) refl

  terminate-left :
      (t : Task S) (w : World M S)
      → watch.receivers (w.stops t.context.stopping) ≡ 1
      → let (t', w') = terminate t w in
        (t'.phase ≡ terminating t.context.stopping)
        × (watch.receivers (w'.stops t.context.stopping) ≡ 0)
  unfolding terminate stop_children take_watched
  terminate-left t w alone = (
    refl,
    ap watch.receivers (
          update_self (update w.stops w.next watch.channel) t.context.stopping
            (watch.drop_receiver (watch.send (w.stops t.context.stopping))))
        ∙ watch.receivers-drop _
        ∙ ap (λ n. n - 1) (watch.receivers-send _ ∙ alone)
        ∙ omega arith,
  )

  module _ (behaviours : ℕ → Behaviour M S) where
    finished_stays :
        (second third : Instant) (t : Task S) (w : World M S)
        → t.phase ≡ finished
        → let (t', w') = poll behaviours second t w in
          (poll behaviours third t' w').0.phase ≡ finished
    finished_stays second third t w e =
        rw (poll-finished behaviours second t w e, poll-finished behaviours third t w e) e

    -- Two polls end a task that has no child left in `terminate`.
    terminating_ends :
        (second third : Instant) (old : ℕ) (t : Task S) (w : World M S)
        → t.phase ≡ terminating old
        → watch.receivers (w.stops old) ≡ 0
        → let (t', w') = poll behaviours second t w in
          (poll behaviours third t' w').0.phase ≡ finished
    terminating_ends second third old t w e left =
        let ended = poll-terminating behaviours second old t w e left in
        ap (λ p. p.0.phase) (poll-finished behaviours third _ _ ended) ∙ ended

    -- So do two polls behind one that is `terminate`.
    terminate_ends :
        (first second third : Instant) (t t' : Task S) (w w' : World M S)
        → poll behaviours first t w ≡ terminate t' w'
        → watch.receivers (w'.stops t'.context.stopping) ≡ 1
        → (poll_thrice behaviours first second third t w).0.phase ≡ finished
    terminate_ends first second third t t' w w' e alone =
        let (at, left) = terminate-left t' w' alone in
        rw e (terminating_ends second third t'.context.stopping _ _ at left)

    stopped_ends_at :
        (phase : Phase S) (first second third : Instant) (t : Task S) (w : World M S)
        → t.phase ≡ phase
        → stopped_by_parent t w ≡ true
        → IsAlone (λ loc. watch.receivers (w.stops loc)) t.context.stopping phase
        → (poll_thrice behaviours first second third t w).0.phase ≡ finished
    unfolding poll poll_at poll_receiving poll_stopping_children poll_backing_off
    stopped_ends_at initializing first second third t w at stopped alone = elim alone [ ]
    stopped_ends_at (receiving state up_since) first second third t w at stopped alone =
        terminate_ends first second third t t w
          (record w { log = state_dropped t.actor_id ∷ w.log })
          (rw (at, poll, poll_at, stopped, poll_receiving) refl) alone
    stopped_ends_at (stopping_children delay old) first second third t w at stopped (left, alone) =
        elim (Bool-cases (delay == 0)) [
          | inl at_once ↦
              terminate_ends first second third t t w w
                (rw (at, poll, poll_at, left, at_once, stopped, poll_stopping_children) refl) alone
          | inr later ↦
              let waiting : Task S = record t { phase = backing_off (first + delay) } in
              let first_poll : poll behaviours first t w ≡ (waiting, w) =
                rw (at, poll, poll_at, left, later, poll_stopping_children) refl in
              rw first_poll (
                let second_poll : poll behaviours second waiting w ≡ terminate waiting w =
                  rw (stopped, poll_backing_off) refl in
                let (at', left') = terminate-left waiting w alone in
                rw second_poll (poll-terminating behaviours third t.context.stopping _ _ at' left'))
        ]
    stopped_ends_at (backing_off until) first second third t w at stopped alone =
        terminate_ends first second third t t w w
          (rw (at, poll, poll_at, stopped, poll_backing_off) refl) alone
    stopped_ends_at (terminating old) first second third t w at stopped left =
        let ended = poll-terminating behaviours first old t w at left in
        finished_stays second third (poll behaviours first t w).0 (poll behaviours first t w).1
          ended
    stopped_ends_at finished first second third t w at stopped alone =
        rw
          (
            poll-finished behaviours first t w at,
            poll-finished behaviours second t w at,
            poll-finished behaviours third t w at,
          )
          at

    -- A task whose parent stops it ends: at any instants, whatever its mailbox holds and its code does,
    -- it has finished behind three polls, unless it is about to run `init`, or some child of it is left.
    pub stopped_ends :
        (first second third : Instant) (t : Task S) (w : World M S)
        → stopped_by_parent t w ≡ true
        → IsAlone (λ loc. watch.receivers (w.stops loc)) t.context.stopping t.phase
        → (poll_thrice behaviours first second third t w).0.phase ≡ finished
    stopped_ends first second third t w stopped alone =
        stopped_ends_at t.phase first second third t w refl stopped alone
