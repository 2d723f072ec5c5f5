-- ===== src/System/Awaited.antt =====
-- waltz/src/actor_system.rs: what the end of the wait for the termination of a system means.
use waltz.Base.{
  false_is_not_true, ℕ, ◌+◌, ◌<◌, ◌≡◌, refl, sym, ap, ◌∙◌, subst, ◌⊎◌, inl, inr, false, is_some, [],
  none, some, of_some, Result, ◌==◌, if◌then◌else◌, if-cases, Bool-cases, Option-cases, arith,
}
use waltz.Base.Cells.{update_self, update-ne}
use waltz.Extern.Flume.{Flume}
use waltz.Extern.Oneshot.{Oneshot}
use waltz.Extern.Watch.{Watch}
use waltz.Actor.{ActorId, Incoming}
use waltz.Config.{ActorConfig}
use waltz.Restart.{Instant}
use waltz.Memory.{Heap, RootTerminatedSink, root_sink}
use waltz.Mailbox.{make_mailbox, terminated_sink}
use waltz.Reference.{ActorRef, new_self, watcher_registry}
use waltz.Context
use waltz.World.{Behaviour, finished, Task, World, spawn}
use waltz.RunLoop.{poll}
use waltz.RunLoop.Kept.{runs_in}
use waltz.Context.Watching.{add_open}
use waltz.System.{ActorSystem, Error, spawn_root, register_root, signal_at_once, poll_terminated}
use waltz.System.Signaling.{waiting-poll_terminated}
use waltz.System.Waiting.{Waiting, write-Waiting, tell-Waiting}
use waltz.System.Sound.{IsOwn, is_running, Sound, poll-Sound}
use waltz.Tree.Shape.{spawned_task}
use waltz.Tree.Root.{IsNew, root_world}
use waltz.Tree.Reached.{poll_task, not_running, root_ends_last}
use waltz.System.Runs.{
  SystemStep, task_polled, told_from_outside, root_registered, Runs, begins, continues,
  Runs-Reached,
}

module _ {M : Type 0} ⦃flume : Flume (Incoming M)⦄ ⦃oneshot : Oneshot (Unit {0})⦄ where
  register_root-Waiting :
      (root : ActorRef) (sink : RootTerminatedSink) (rx : ℕ) (watcher_id : ActorId) (h : Heap M)
      → Waiting (watcher_registry root).registry rx h
      → Waiting (watcher_registry root).registry rx (register_root root sink watcher_id h).1
  unfolding register_root signal_at_once
  register_root-Waiting root sink rx watcher_id h v =
      rw
        (add_open (watcher_registry root)
          (record { watcher_id = watcher_id; terminated_sink = root_sink sink }) h v.is_open.0
          v.is_open.1)
        (write-Waiting (watcher_registry root).registry rx h _ (watcher_registry root).registry _
          (λ ne. absurd (ne refl)) refl refl v)

module _ {M S : Type 0} ⦃flume : Flume (Incoming M)⦄ ⦃oneshot : Oneshot (Unit {0})⦄
    ⦃watch : Watch⦄ where
  -- The root runs and the wait is pending, or the root has ended.
  record Settled (root rx : ℕ) (w : World M S) : Type 0 where
    own : (j : ℕ) (u : Task S) → w.tasks j ≡ some u → IsOwn j u
    below : root < w.next
    settled : (is_running (w.tasks root) ≡ false) ⊎ Waiting root rx w.heap

  poll_task-Settled :
      (root rx : ℕ) (behaviours : ℕ → Behaviour M S) (id : ℕ) (now : Instant) (t : Task S)
      (w : World M S)
      → w.tasks id ≡ some t
      → Settled root rx w
      → Settled root rx (poll_task behaviours id now t w)
  unfolding poll_task
  poll_task-Settled root rx behaviours id now t w at v =
      let (t', w') = poll behaviours now t w in
      let v' : Sound root rx id (t', w') = poll-Sound root rx id behaviours now t w (record {
        own = v.own id t at;
        others = v.own;
        below = v.below;
        settled = elim v.settled [ inl ended ↦ inl (view ∙ ended) | inr pending ↦ inr pending ];
      }) in
      record {
        own = λ j u e. elim (if-cases id j (some t') (w'.tasks j)) [
          | inl (here, e') ↦
              subst (λ k. IsOwn k u) here (subst (IsOwn id) (of_some (sym e' ∙ e)) v'.own)
          | inr (away, e') ↦ v'.others j u (sym e' ∙ e)
        ];
        below = v'.below;
        settled = elim v'.settled [
          | inl ended ↦ inl (behind t' w' ∙ ended)
          | inr pending ↦ inr pending
        ];
      }
    where
      view :
          (if id == root then runs_in t.phase else is_running (w.tasks root))
          ≡ is_running (w.tasks root)
      view = elim (if-cases id root (runs_in t.phase) (is_running (w.tasks root))) [
        | inl (here, e) ↦ e ∙ sym (ap is_running (ap w.tasks (sym here) ∙ at))
        | inr (away, e) ↦ e
      ]

      behind :
          (t' : Task S) (w' : World M S)
          → is_running (if id == root then some t' else w'.tasks root)
            ≡ (if id == root then runs_in t'.phase else is_running (w'.tasks root))
      behind t' w' = elim (Bool-cases (id == root)) [ inl e ↦ rw e refl | inr e ↦ rw e refl ]

  SystemStep-Settled :
      (behaviours : ℕ → Behaviour M S) (root : ActorRef) (sink : RootTerminatedSink) (rx : ℕ)
      (w w' : World M S)
      → SystemStep behaviours root sink w w'
      → Settled (watcher_registry root).registry rx w
      → Settled (watcher_registry root).registry rx w'
  SystemStep-Settled behaviours root sink rx w w' (task_polled id now t at e) v =
      subst (Settled (watcher_registry root).registry rx) (sym e)
        (poll_task-Settled (watcher_registry root).registry rx behaviours id now t w at v)
  SystemStep-Settled behaviours root sink rx w w' (told_from_outside to m e) v =
      subst (Settled (watcher_registry root).registry rx) (sym e) (record {
        own = v.own;
        below = v.below;
        settled = elim v.settled [
          | inl ended ↦ inl ended
          | inr pending ↦ inr (tell-Waiting (watcher_registry root).registry rx to m w.heap pending)
        ];
      })
  SystemStep-Settled behaviours root sink rx w w' (root_registered id e) v =
      subst (Settled (watcher_registry root).registry rx) (sym e) (record {
        own = v.own;
        below = v.below;
        settled = elim v.settled [
          | inl ended ↦ inl ended
          | inr pending ↦ inr (register_root-Waiting root sink rx id w.heap pending)
        ];
      })

  -- No watcher is registered yet.
  abbrev pub HasNoWatcher : World M S → Type 0
  HasNoWatcher w = (loc : ℕ) → w.heap.registries loc ≡ none

  module _ (behaviours : ℕ → Behaviour M S) (behaviour : ℕ) (config : ActorConfig)
      (first : World M S) where
    abbrev pub system : ActorSystem
    system = (spawn_root behaviour config first).0

    abbrev pub sink : RootTerminatedSink
    sink = (spawn_root behaviour config first).1

    -- The task of the root.
    abbrev root_task : Task S
    root_task =
        spawned_task (first.next + 1) behaviour config (record first { next = first.next + 2 })

    spawn_root-Settled :
        IsNew first
        → HasNoWatcher first
        → Settled
            (watcher_registry system.root).registry
            system.terminated_rx
            (root_world behaviour config first)
    unfolding spawn_root spawn new_self make_mailbox terminated_sink Context.new watcher_registry
    spawn_root-Settled new no_watcher = record {
      own = λ j u e. elim (if-cases (first.next + 2) j (some root_task) (first.tasks j)) [
        | inl (here, e') ↦ subst (IsOwn j) (of_some (sym e' ∙ e)) (here, tt)
        | inr (away, e') ↦
            absurd (false_is_not_true (ap is_some (sym (new.no_task j) ∙ sym e' ∙ e)))
      ];
      below = omega arith;
      settled = inr (record {
        only_root = λ loc m e ne. absurd (
            false_is_not_true (
              ap is_some (
                sym (no_watcher loc)
                ∙ sym (
                    update-ne first.heap.registries (first.next + 2) (some []) loc
                      (λ same. ne (sym same)))
                ∙ e)));
        is_open = ([], update_self first.heap.registries (first.next + 2) (some []));
        waits =
            ap oneshot.view (update_self first.heap.oneshots first.next oneshot.channel)
            ∙ oneshot.view-channel;
      });
    }

    Runs-Settled :
        (w : World M S)
        → IsNew first
        → HasNoWatcher first
        → Runs behaviours system.root sink (root_world behaviour config first) w
        → Settled (watcher_registry system.root).registry system.terminated_rx w
    Runs-Settled w new no_watcher begins = spawn_root-Settled new no_watcher
    Runs-Settled w new no_watcher (continues {w = before} r step) =
        SystemStep-Settled behaviours system.root sink system.terminated_rx before w step
          (Runs-Settled before new no_watcher r)

    -- The wait for the termination of a system ends only when every actor has ended: from a new world
    -- without watchers, in which the root is spawned, and by polls of the tasks in any order, by messages
    -- from outside and by the registration with the root, no world is reached in which a poll of
    -- `terminated` is ready and some task has not finished.
    pub terminated_lem :
        (w : World M S) (id : ℕ) (t : Task S) (result : Result (Unit {0}) Error)
        → IsNew first
        → HasNoWatcher first
        → Runs behaviours system.root sink (root_world behaviour config first) w
        → poll_terminated system w.heap ≡ some result
        → w.tasks id ≡ some t
        → t.phase ≡ finished
    unfolding spawn_root spawn new_self make_mailbox watcher_registry
    terminated_lem w id t result new no_watcher runs ready there =
        let v = Runs-Settled w new no_watcher runs in
        elim v.settled [
          | inr pending ↦ absurd (
              false_is_not_true
                (ap is_some (sym (waiting-poll_terminated system w.heap pending.waits) ∙ ready)))
          | inl ended ↦ elim (Option-cases (w.tasks (watcher_registry system.root).registry)) [
            | inl absent ↦ absurd (false_is_not_true (sym ended ∙ ap is_running absent))
            | inr (root, at) ↦
                root_ends_last behaviours behaviour config first w root t id new
                  (Runs-Reached behaviours system.root sink (root_world behaviour config first) w
                    runs)
                  at (not_running root.phase (sym (ap is_running at) ∙ ended)) there
          ]
        ]
