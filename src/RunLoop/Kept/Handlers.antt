-- ===== src/RunLoop/Kept/Handlers.antt =====
-- waltz/src/actor_context.rs: what follows the code of an actor, by the changes it is made of.
use waltz.Base.{◌≡◌, inl, inr, true, Option, none, some, Bool-cases}
use waltz.Extern.Flume.{Flume}
use waltz.Extern.Oneshot.{Oneshot}
use waltz.Extern.Watch.{Watch}
use waltz.Actor.{Incoming, message, terminated, Control, continue, stop}
use waltz.Restart.{Instant, Restart, after, limit_exceeded, not_configured, next_restart}
use waltz.Context.{take_watched_for}
use waltz.World.{Behaviour, receiving, Task, World, stop_children, run_script}
use waltz.RunLoop.{
  catch_and_log, stopped_by_parent, begin_restart, after_decision, fail, after_init, after_receive,
  handle, deliver,
}
use waltz.RunLoop.Kept.{channel_of, runs_in, IsActive, active-channel, Kept, run_script-Kept}

module _ {M S : Type 0} ⦃flume : Flume (Incoming M)⦄ ⦃oneshot : Oneshot (Unit {0})⦄ ⦃watch : Watch⦄
    (P : Task S × World M S → Type 0) (k : Kept P) where
  after_decision-Kept :
      (decision : Restart) (t : Task S) (w : World M S)
      → channel_of t.phase t.context.stopping ≡ t.context.stopping
      → runs_in t.phase ≡ true
      → P (t, w)
      → P (after_decision decision t w)
  unfolding after_decision begin_restart stop_children
  after_decision-Kept (after delay) t w whole runs v = elim (Bool-cases (stopped_by_parent t w)) [
    | inl e ↦ rw (e, begin_restart) (k.terminates t w whole runs v)
    | inr e ↦ rw (e, begin_restart) (k.restarts t w delay whole runs v)
  ]
  after_decision-Kept limit_exceeded t w whole runs v = k.terminates t w whole runs v
  after_decision-Kept not_configured t w whole runs v = k.terminates t w whole runs v

  fail-Kept :
      (up_since : Option Instant) (now : Instant) (t : Task S) (w : World M S)
      → IsActive t.phase
      → P (t, w)
      → P (fail up_since now t w)
  unfolding fail
  fail-Kept up_since now t w active v =
      let (decision, restarts) =
        next_restart t.config.supervision_strategy up_since now t.restarts in
      let t' : Task S = record t { restarts = restarts } in
      let (whole, runs) = active-channel t.phase t.context.stopping active in
      after_decision-Kept decision t' w whole runs (k.counted t w restarts v)

  pub after_init-Kept :
      (state : Option S) (now : Instant) (t : Task S) (w : World M S)
      → IsActive t.phase
      → P (t, w)
      → P (after_init state now t w)
  unfolding after_init
  after_init-Kept (some state) now t w active v =
      let (whole, runs) = active-channel t.phase t.context.stopping active in
      k.becomes t w (receiving state now) whole runs tt v
  after_init-Kept none now t w active v = fail-Kept none now t w active v

  after_receive-Kept :
      (control : Option (Control S)) (up_since now : Instant) (t : Task S) (w : World M S)
      → IsActive t.phase
      → P (t, w)
      → P (after_receive control up_since now t w)
  unfolding after_receive
  after_receive-Kept (some (continue state)) up_since now t w active v =
      let (whole, runs) = active-channel t.phase t.context.stopping active in
      k.becomes t w (receiving state up_since) whole runs tt v
  after_receive-Kept (some stop) up_since now t w active v =
      let (whole, runs) = active-channel t.phase t.context.stopping active in
      k.terminates t w whole runs v
  after_receive-Kept none up_since now t w active v = fail-Kept (some up_since) now t w active v

  handle-Kept :
      (behaviour : Behaviour M S) (state : S) (up_since now : Instant) (incoming : Incoming M)
      (t : Task S) (w : World M S)
      → IsActive t.phase
      → P (t, w)
      → P (handle behaviour state up_since now incoming t w)
  unfolding handle
  handle-Kept behaviour state up_since now incoming t w active v =
      let (outcome, c, w') = run_script (behaviour.receive incoming state) t.context w in
      after_receive-Kept (catch_and_log outcome) up_since now (record t { context = c }) w' active
        (run_script-Kept P k (behaviour.receive incoming state) t w active v)

  pub deliver-Kept :
      (behaviour : Behaviour M S) (state : S) (up_since now : Instant) (incoming : Incoming M)
      (t : Task S) (w : World M S)
      → IsActive t.phase
      → P (t, w)
      → P (deliver behaviour state up_since now incoming t w)
  unfolding deliver take_watched_for
  deliver-Kept behaviour state up_since now (message m) t w active v =
      handle-Kept behaviour state up_since now (message m) t w active v
  deliver-Kept behaviour state up_since now (terminated other) t w active v =
      let (watched, c) = take_watched_for other t.context in
      let t' : Task S = record t { context = c } in
      let v' = k.taken t w other v in
      elim (Bool-cases watched) [
        | inl e ↦
            rw (e, deliver)
              (handle-Kept behaviour state up_since now (terminated other) t' w active v')
        | inr e ↦ rw (e, deliver) v'
      ]
