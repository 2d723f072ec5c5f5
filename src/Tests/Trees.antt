-- ===== src/Tests/Trees.antt =====
-- Tests of the tree of actors of waltz/src/actor_context.rs, and of the end of its tasks.
use waltz.Base.{arith, ℕ, ◌≡◌, ◌≢◌, refl, true, false, none, some, ok, [], if◌then◌else◌, ◌==◌}
use waltz.Config.{ActorConfig, bounded, stop}
use waltz.World.{value, error, returns, spawns, Behaviour, terminating, finished, Task, World}
use waltz.RunLoop.{poll}
use waltz.RunLoop.Kept.{channel_of, is_awaiting}
use waltz.Tree.Awaiting.{await_has_child}
use waltz.RunLoop.Liveness.{poll_thrice, stopped_ends}
use waltz.System.{ActorSystem, spawn_root, register_root, poll_terminated}
use waltz.Memory.{RootTerminatedSink}
use waltz.System.Runs.{Runs, begins, continues, task_polled, root_registered, Runs-Reached}
use waltz.System.Awaited.{system, sink, terminated_lem}
use waltz.Tree.Invariant.{Inv}
use waltz.Tree.Shape.{tree_of}
use waltz.Tree.Root.{IsNew, root_world}
use waltz.Tree.Reached.{Reached, poll_task, Reached-Inv, root_ends_last}
use waltz.Tests.Instances.{incoming_flume, unit_oneshot, the_watch}
use waltz.Tests.Mailboxes.{empty_heap}
use waltz.Tests.Tasks.{behaviours, task, world}

abbrev config : ActorConfig
config = record { mailbox_capacity = bounded 1; supervision_strategy = stop }

-- The root spawns a child, and both fail in `init`, without a restart.
abbrev failing : ℕ → Behaviour ℕ ℕ
failing n = record {
  init = if n == 0 then spawns 1 config (λ child. returns error) else returns error;
  receive = λ incoming state. returns error;
}

abbrev first : World ℕ ℕ
first = record {
  heap = record empty_heap { registries = λ loc. none };
  stops = λ loc. record { count = 0; changed = false };
  tasks = λ j. none;
  next = 10;
  log = [];
}

first-IsNew : IsNew first
first-IsNew = record { no_task = λ j. refl; no_receiver = λ loc. refl }

-- The task at `j`, which is there.
abbrev task_at : ℕ → World ℕ ℕ → Task ℕ
task_at j w = elim (w.tasks j) [ none ↦ task | some t ↦ t ]

-- The root is polled, then the child twice, then the root.
abbrev polled : ℕ → ℕ → World ℕ ℕ → World ℕ ℕ
polled j now w = poll_task failing j now (task_at j w) w

abbrev began : World ℕ ℕ
began = root_world 0 config first

abbrev the_system : ActorSystem
the_system = system failing 0 config first

abbrev the_sink : RootTerminatedSink
the_sink = sink failing 0 config first

abbrev registered : World ℕ ℕ
registered = record began { heap = (register_root the_system.root the_sink 5 began.heap).1 }

abbrev one : World ℕ ℕ
one = polled 12 100 registered

abbrev two : World ℕ ℕ
two = polled 14 100 one

abbrev three : World ℕ ℕ
three = polled 14 101 two

abbrev four : World ℕ ℕ
four = polled 12 102 three

there_began : registered.tasks 12 ≡ some (task_at 12 registered)
unfolding poll_task poll spawn_root waltz.World.spawn waltz.World.run_script
    waltz.Restart.next_restart waltz.RunLoop.Terminate.terminate waltz.World.stop_children
    waltz.World.spawn_child waltz.RunLoop.Terminate.poll_terminating waltz.Context.take_watched
    waltz.Context.new
there_began = refl

there_one : one.tasks 14 ≡ some (task_at 14 one)
unfolding poll_task poll spawn_root waltz.World.spawn waltz.World.run_script
    waltz.Restart.next_restart waltz.RunLoop.Terminate.terminate waltz.World.stop_children
    waltz.World.spawn_child waltz.RunLoop.Terminate.poll_terminating waltz.Context.take_watched
    waltz.Context.new
there_one = refl

there_two : two.tasks 14 ≡ some (task_at 14 two)
unfolding poll_task poll spawn_root waltz.World.spawn waltz.World.run_script
    waltz.Restart.next_restart waltz.RunLoop.Terminate.terminate waltz.World.stop_children
    waltz.World.spawn_child waltz.RunLoop.Terminate.poll_terminating waltz.Context.take_watched
    waltz.Context.new
there_two = refl

there_three : three.tasks 12 ≡ some (task_at 12 three)
unfolding poll_task poll spawn_root waltz.World.spawn waltz.World.run_script
    waltz.Restart.next_restart waltz.RunLoop.Terminate.terminate waltz.World.stop_children
    waltz.World.spawn_child waltz.RunLoop.Terminate.poll_terminating waltz.Context.take_watched
    waltz.Context.new
there_three = refl

there_root : four.tasks 12 ≡ some (task_at 12 four)
unfolding poll_task poll spawn_root waltz.World.spawn waltz.World.run_script
    waltz.Restart.next_restart waltz.RunLoop.Terminate.terminate waltz.World.stop_children
    waltz.World.spawn_child waltz.RunLoop.Terminate.poll_terminating waltz.Context.take_watched
    waltz.Context.new
there_root = refl

there_child : four.tasks 14 ≡ some (task_at 14 four)
unfolding poll_task poll spawn_root waltz.World.spawn waltz.World.run_script
    waltz.Restart.next_restart waltz.RunLoop.Terminate.terminate waltz.World.stop_children
    waltz.World.spawn_child waltz.RunLoop.Terminate.poll_terminating waltz.Context.take_watched
    waltz.Context.new
there_child = refl

root_finished : (task_at 12 four).phase ≡ finished
unfolding poll_task poll spawn_root waltz.World.spawn waltz.World.run_script
    waltz.Restart.next_restart waltz.RunLoop.Terminate.terminate waltz.World.stop_children
    waltz.World.spawn_child waltz.RunLoop.Terminate.poll_terminating waltz.Context.take_watched
    waltz.Context.new
root_finished = refl

ready : poll_terminated the_system four.heap ≡ some (ok tt)
unfolding poll_task poll spawn_root poll_terminated waltz.World.spawn waltz.World.run_script
    waltz.Restart.next_restart waltz.RunLoop.Terminate.terminate waltz.World.stop_children
    waltz.World.spawn_child waltz.RunLoop.Terminate.poll_terminating waltz.Context.take_watched
    waltz.Context.new waltz.Mailbox.take_watchers waltz.Reference.new_self
    waltz.Mailbox.make_mailbox waltz.Mailbox.split register_root waltz.System.signal_at_once
    waltz.Mailbox.add waltz.Base.Map.or_insert waltz.Mailbox.send_terminated
    waltz.RunLoop.Terminate.finish waltz.Reference.watcher_registry
ready = refl

half_run : Runs failing the_system.root the_sink began two
half_run =
    continues
      (continues (continues begins (root_registered 5 refl))
        (task_polled 12 100 (task_at 12 registered) there_began refl))
      (task_polled 14 100 (task_at 14 one) there_one refl)

runs : Runs failing the_system.root the_sink began four
runs =
    continues (continues half_run (task_polled 14 101 (task_at 14 two) there_two refl))
      (task_polled 12 102 (task_at 12 three) there_three refl)

reached : Reached failing began four
reached = Runs-Reached failing the_system.root the_sink began four runs

terminated_lem_example : (task_at 14 four).phase ≡ finished
terminated_lem_example =
    terminated_lem failing 0 config first four 14 (task_at 14 four) (ok tt) first-IsNew
      (λ loc. refl) runs ready there_child

Reached-Inv_example : Inv 12 (tree_of four)
unfolding spawn_root waltz.World.spawn waltz.Reference.new_self
Reached-Inv_example = Reached-Inv failing 0 config first four first-IsNew reached

root_ends_last_example : (task_at 14 four).phase ≡ finished
unfolding spawn_root waltz.World.spawn waltz.Reference.new_self
root_ends_last_example =
    root_ends_last failing 0 config first four (task_at 12 four) (task_at 14 four) 14 first-IsNew
      reached there_root root_finished there_child

-- The task is stopped, and its context has the last receiver of its channel.
abbrev alone : World ℕ ℕ
alone = record (world true) { stops = λ loc. record { count = 1; changed = loc == 1 } }

stopped_ends_example : (poll_thrice behaviours 12 13 14 task alone).0.phase ≡ finished
stopped_ends_example = stopped_ends behaviours 12 13 14 task alone refl refl

there_awaiting : two.tasks 12 ≡ some (task_at 12 two)
unfolding poll_task poll spawn_root waltz.World.spawn waltz.World.run_script
    waltz.Restart.next_restart waltz.RunLoop.Terminate.terminate waltz.World.stop_children
    waltz.World.spawn_child waltz.RunLoop.Terminate.poll_terminating waltz.Context.take_watched
    waltz.Context.new
there_awaiting = refl

two_awaiting : is_awaiting (task_at 12 two).phase ≡ true
unfolding poll_task poll spawn_root waltz.World.spawn waltz.World.run_script
    waltz.Restart.next_restart waltz.RunLoop.Terminate.terminate waltz.World.stop_children
    waltz.World.spawn_child waltz.RunLoop.Terminate.poll_terminating waltz.Context.take_watched
    waltz.Context.new
two_awaiting = refl

two_held :
    (two.stops (channel_of (task_at 12 two).phase (task_at 12 two).context.stopping)).count ≡ 2
unfolding poll_task poll spawn_root waltz.World.spawn waltz.World.run_script
    waltz.Restart.next_restart waltz.RunLoop.Terminate.terminate waltz.World.stop_children
    waltz.World.spawn_child waltz.RunLoop.Terminate.poll_terminating waltz.Context.take_watched
    waltz.Context.new
two_held = refl

await_has_child_example :
    (j : ℕ) × (u : Task ℕ) × (two.tasks j ≡ some u)
    × (u.phase ≢ finished)
    × (u.parent_stopping_rx ≡ channel_of (task_at 12 two).phase (task_at 12 two).context.stopping)
await_has_child_example =
    await_has_child failing 0 config first two 12 (task_at 12 two) first-IsNew
      (Runs-Reached failing the_system.root the_sink began two half_run) there_awaiting two_awaiting
      (λ none_left. ground (arith, two_held, none_left))
