-- ===== src/System/Runs.antt =====
-- waltz/src/actor_system.rs: the runs of a system behind `spawn_root`.
use waltz.Base.{ℕ, ◌≡◌, some}
use waltz.Extern.Flume.{Flume}
use waltz.Extern.Oneshot.{Oneshot}
use waltz.Extern.Watch.{Watch}
use waltz.Actor.{ActorId, Incoming}
use waltz.Restart.{Instant}
use waltz.Memory.{RootTerminatedSink}
use waltz.Reference.{ActorRef, tell}
use waltz.World.{Behaviour, Task, World}
use waltz.System.{register_root}
use waltz.Tree.Reached.{poll_task, polls, outside, Reached, starts, goes_on}

module _ {M S : Type 0} ⦃flume : Flume (Incoming M)⦄ ⦃oneshot : Oneshot (Unit {0})⦄
    ⦃watch : Watch⦄ where
  -- Beside the polls, code outside of the actors tells, and `spawn_root` registers with the root.
  pub data SystemStep (behaviours : ℕ → Behaviour M S) (root : ActorRef) (sink : RootTerminatedSink)
      (w w' : World M S) : Type 0 where
    task_polled :
        (id : ℕ) (now : Instant) (t : Task S)
        → w.tasks id ≡ some t
        → w' ≡ poll_task behaviours id now t w
        → SystemStep behaviours root sink w w'
    told_from_outside :
        (r : ActorRef) (m : M)
        → w' ≡ record w { heap = tell r m w.heap }
        → SystemStep behaviours root sink w w'
    root_registered :
        (watcher_id : ActorId)
        → w' ≡ record w { heap = (register_root root sink watcher_id w.heap).1 }
        → SystemStep behaviours root sink w w'

  pub data Runs (behaviours : ℕ → Behaviour M S) (root : ActorRef) (sink : RootTerminatedSink)
      (first : World M S) : World M S → Type 0 where
    begins : Runs behaviours root sink first first
    continues :
        {w w' : World M S}
        → Runs behaviours root sink first w
        → SystemStep behaviours root sink w w'
        → Runs behaviours root sink first w'

  pub Runs-Reached :
      (behaviours : ℕ → Behaviour M S) (root : ActorRef) (sink : RootTerminatedSink)
      (first w : World M S)
      → Runs behaviours root sink first w
      → Reached behaviours first w
  Runs-Reached behaviours root sink first w begins = starts
  Runs-Reached behaviours root sink first w (continues {w = before} r (task_polled id now t at e)) =
      goes_on (Runs-Reached behaviours root sink first before r) (polls id now t at e)
  Runs-Reached behaviours root sink first w (continues {w = before} r (told_from_outside to m e)) =
      goes_on (Runs-Reached behaviours root sink first before r) (outside (tell to m before.heap) e)
  Runs-Reached behaviours root sink first w (continues {w = before} r (root_registered id e)) =
      goes_on (Runs-Reached behaviours root sink first before r)
        (outside (register_root root sink id before.heap).1 e)
