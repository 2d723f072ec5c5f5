-- ===== src/Tree/Shape.antt =====
-- waltz/src/actor_context.rs: what the tree sees of the tasks of a world.
use waltz.Base.{◌+◌, ℕ, Option, none, some, ◌==◌, if◌then◌else◌}
use waltz.Extern.Flume.{Flume}
use waltz.Extern.Oneshot.{Oneshot}
use waltz.Extern.Watch.{Watch}
use waltz.Actor.{Incoming}
use waltz.Config.{ActorConfig}
use waltz.Reference.{new_self}
use waltz.Context
use waltz.World.{initializing, Task, World}
use waltz.RunLoop.Kept.{channel_of, runs_in}
use waltz.Tree.{Node, Tree}

abbrev pub node_of : {S : Type 0} → Task S → Node
node_of t = record {
  parent = t.parent_stopping_rx;
  own = t.context.stopping;
  channel = channel_of t.phase t.context.stopping;
  is_running = runs_in t.phase;
}

abbrev pub node_at : {S : Type 0} → Option (Task S) → Option Node
node_at none = none
node_at (some t) = some (node_of t)

module _ {M S : Type 0} ⦃flume : Flume (Incoming M)⦄ ⦃oneshot : Oneshot (Unit {0})⦄
    ⦃watch : Watch⦄ where
  abbrev pub tree_of : World M S → Tree
  tree_of w = record {
    next = w.next;
    receivers = λ loc. watch.receivers (w.stops loc);
    nodes = λ j. node_at (w.tasks j);
  }

  -- The tree while the task at `id` is polled.
  abbrev pub shape : ℕ → Task S → World M S → Tree
  shape id t w = record {
    next = w.next;
    receivers = λ loc. watch.receivers (w.stops loc);
    nodes = λ j. if id == j then some (node_of t) else node_at (w.tasks j);
  }

  -- The task that `spawn` makes, of the world that it is given.
  abbrev pub spawned_task : ℕ → ℕ → ActorConfig → World M S → Task S
  spawned_task parent_stopping_rx behaviour config w =
      let (self_ref, mailbox, h) = new_self w.next config.mailbox_capacity w.next w.heap in
      record {
        actor_id = w.next;
        behaviour = behaviour;
        config = config;
        parent_stopping_rx = parent_stopping_rx;
        context = Context.new self_ref (w.next + 1);
        mailbox = mailbox;
        restarts = 0;
        phase = initializing;
      }
