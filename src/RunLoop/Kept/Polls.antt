-- ===== src/RunLoop/Kept/Polls.antt =====
-- waltz/src/actor_context.rs: a poll of a task keeps what the changes it is made of keep.
use waltz.Base.{
  ℕ, ◌+◌, ◌≡◌, refl, sym, ap, ◌∙◌, inl, inr, true, ◌∷◌, leb, ◌==◌, Bool-cases, Option-cases, subst,
  arith,
}
use waltz.Base.Duration.{Duration}
use waltz.Extern.Flume.{Flume}
use waltz.Extern.Oneshot.{Oneshot}
use waltz.Extern.Watch.{Watch}
use waltz.Actor.{Incoming}
use waltz.Restart.{Instant}
use waltz.Mailbox.{recv}
use waltz.World.{
  Behaviour, Phase, initializing, receiving, stopping_children, backing_off, terminating, finished,
  state_dropped, Task, World, run_script,
}
use waltz.RunLoop.{
  catch_and_log, stopped_by_parent, poll_initializing, poll_receiving, poll_stopping_children,
  poll_backing_off, poll_at, poll,
}
use waltz.RunLoop.Terminate.{terminate, poll_terminating}
use waltz.RunLoop.Kept.Handlers.{after_init-Kept, deliver-Kept}
use waltz.RunLoop.Kept.{channel_of, runs_in, IsActive, active-channel, Kept, run_script-Kept}

module _ {M S : Type 0} ⦃flume : Flume (Incoming M)⦄ ⦃oneshot : Oneshot (Unit {0})⦄ ⦃watch : Watch⦄
    (P : Task S × World M S → Type 0) (k : Kept P) where
  poll_initializing-Kept :
      (behaviour : Behaviour M S) (now : Instant) (t : Task S) (w : World M S)
      → IsActive t.phase
      → P (t, w)
      → P (poll_initializing behaviour now t w)
  unfolding poll_initializing
  poll_initializing-Kept behaviour now t w active v =
      let (outcome, c, w') = run_script behaviour.init t.context w in
      after_init-Kept P k (catch_and_log outcome) now (record t { context = c }) w' active
        (run_script-Kept P k behaviour.init t w active v)

  poll_receiving-Kept :
      (behaviour : Behaviour M S) (state : S) (up_since now : Instant) (t : Task S) (w : World M S)
      → IsActive t.phase
      → P (t, w)
      → P (poll_receiving behaviour state up_since now t w)
  unfolding poll_receiving
  poll_receiving-Kept behaviour state up_since now t w active v =
      let (whole, runs) = active-channel t.phase t.context.stopping active in
      elim (Bool-cases (stopped_by_parent t w)) [
        | inl e ↦
            rw (e, poll_receiving)
              (k.terminates t (record w { log = state_dropped t.actor_id ∷ w.log }) whole runs
                (k.logged t w (state_dropped t.actor_id) v))
        | inr e ↦ elim (Option-cases (recv t.mailbox w.heap)) [
          | inl idle ↦ rw (e, idle, poll_receiving) v
          | inr ((incoming, heap), arrived) ↦
              rw (e, arrived, poll_receiving)
                (deliver-Kept P k behaviour state up_since now incoming t (record w { heap = heap })
                  active (k.received t w incoming heap arrived v))
        ]
      ]

  module _ (t : Task S) (w : World M S) where
    poll_stopping_children-Kept :
        (delay : Duration) (old : ℕ) (now : Instant)
        → t.phase ≡ stopping_children delay old
        → P (t, w)
        → P (poll_stopping_children delay old now t w)
    unfolding poll_stopping_children terminate
    poll_stopping_children-Kept delay old now at v =
        let runs : runs_in t.phase ≡ true = ap runs_in at in
        elim (Bool-cases (watch.receivers (w.stops old) == 0)) [
          | inr running ↦ rw (running, poll_stopping_children) v
          | inl ended ↦
              let left : watch.receivers (w.stops (channel_of t.phase t.context.stopping)) ≡ 0 =
                ap (λ p. watch.receivers (w.stops (channel_of p t.context.stopping))) at
                ∙ ground arith in
              elim (Bool-cases (delay == 0)) [
                | inr later ↦
                    rw (ended, later, poll_stopping_children)
                      (k.passes t w (backing_off (now + delay)) runs left refl refl refl v)
                | inl at_once ↦
                    let v' = k.passes t w initializing runs left refl refl refl v in
                    elim (Bool-cases (stopped_by_parent t w)) [
                      | inl e ↦
                          rw (ended, at_once, e, poll_stopping_children)
                            (k.terminates (record t { phase = initializing }) w refl refl v')
                      | inr e ↦ rw (ended, at_once, e, poll_stopping_children) v'
                    ]
              ]
        ]

    poll_backing_off-Kept :
        (until now : Instant)
        → t.phase ≡ backing_off until
        → P (t, w)
        → P (poll_backing_off until now t w)
    unfolding poll_backing_off
    poll_backing_off-Kept until now at v =
        let runs : runs_in t.phase ≡ true = ap runs_in at in
        let whole : channel_of t.phase t.context.stopping ≡ t.context.stopping =
          ap (λ p. channel_of p t.context.stopping) at in
        elim (Bool-cases (stopped_by_parent t w)) [
          | inl e ↦ rw (e, poll_backing_off) (k.terminates t w whole runs v)
          | inr e ↦ elim (Bool-cases (leb until now)) [
            | inl over ↦ rw (e, over, poll_backing_off) (k.becomes t w initializing whole runs tt v)
            | inr early ↦ rw (e, early, poll_backing_off) v
          ]
        ]

    poll_terminating-Kept :
        (old : ℕ) → t.phase ≡ terminating old → P (t, w) → P (poll_terminating old t w)
    unfolding poll_terminating
    poll_terminating-Kept old at v = elim (Bool-cases (watch.receivers (w.stops old) == 0)) [
      | inr running ↦ rw (running, poll_terminating) v
      | inl ended ↦
          rw (ended, poll_terminating)
            (k.finishes t w (ap runs_in at)
              (ap (λ p. watch.receivers (w.stops (channel_of p t.context.stopping))) at
                ∙ ground arith)
              v)
    ]

  poll_at-Kept :
      (phase : Phase S) (behaviours : ℕ → Behaviour M S) (now : Instant) (t : Task S)
      (w : World M S)
      → t.phase ≡ phase
      → P (t, w)
      → P (poll_at phase behaviours now t w)
  unfolding poll_at
  poll_at-Kept initializing behaviours now t w at v =
      poll_initializing-Kept (behaviours t.behaviour) now t w (subst IsActive (sym at) tt) v
  poll_at-Kept (receiving state up_since) behaviours now t w at v =
      poll_receiving-Kept (behaviours t.behaviour) state up_since now t w
        (subst IsActive (sym at) tt) v
  poll_at-Kept (stopping_children delay old) behaviours now t w at v =
      poll_stopping_children-Kept t w delay old now at v
  poll_at-Kept (backing_off until) behaviours now t w at v =
      poll_backing_off-Kept t w until now at v
  poll_at-Kept (terminating old) behaviours now t w at v = poll_terminating-Kept t w old at v
  poll_at-Kept finished behaviours now t w at v = v

  -- A poll keeps the invariant of the tree.
  pub poll-Kept :
      (behaviours : ℕ → Behaviour M S) (now : Instant) (t : Task S) (w : World M S)
      → P (t, w)
      → P (poll behaviours now t w)
  unfolding poll
  poll-Kept behaviours now t w v = poll_at-Kept t.phase behaviours now t w refl v
