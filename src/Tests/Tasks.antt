-- ===== src/Tests/Tasks.antt =====
-- Tests of the tasks of waltz/src/actor_context.rs.
use waltz.Base.{
  ℕ, ◌+◌, ◌≡◌, refl, ◌⊎◌, Bool, true, false, none, some, [], ◌∷◌, All, if◌then◌else◌, arith, ◌==◌,
}
use waltz.Base.Map.{values}
use waltz.Base.Cells.{update}
use waltz.Actor.{message, terminated, continue}
use waltz.Config.{bounded, RestartPolicy, restart, IsValid}
use waltz.Memory.{Watcher, counted_sender}
use waltz.Quota.{Repr}
use waltz.Mailbox.Laws.{mailbox_of}
use waltz.Context.{unwatch}
use waltz.Context.Watching.{watches}
use waltz.World.{value, error, returns, Behaviour, receiving, terminating, Task, World}
use waltz.RunLoop.{deliver, poll}
use waltz.RunLoop.Terminate.{terminate, finish}
use waltz.RunLoop.Stopping.{IsEnding, IsBackingOff, poll-stopped}
use waltz.RunLoop.Limit.{Obeys, poll-Obeys}
use waltz.RunLoop.Signals.{unwatch-deliver}
use waltz.RunLoop.Notifying.{registered, queue, is_gone_at}
use waltz.RunLoop.Ending.{terminate_lem, finish_lem}
use waltz.Tests.Instances.{incoming_flume, unit_oneshot, the_watch}
use waltz.Tests.Mailboxes.{empty_heap}
use waltz.Tests.References.{context, other}

-- Actors that count messages, fail on the first one, or stop.
abbrev pub behaviours : ℕ → Behaviour ℕ ℕ
behaviours n = record {
  init = returns (value 0);
  receive =
      λ incoming state. if n == 0 then returns (value (continue (state + 1))) else returns error;
}

abbrev policy : RestartPolicy
policy = record { max_restarts = 2; backoff = record { min = 1; max = 8 }; reset_after = 50 }

policy-IsValid : IsValid policy
policy-IsValid = record {
  positive = omega arith;
  u32_limit = omega arith;
  ordered = omega arith;
  duration_cap = omega arith;
}

-- The actor 3 fails at every message and has been restarted once.
abbrev pub task : Task ℕ
task = record {
  actor_id = 3;
  behaviour = 1;
  config = record { mailbox_capacity = bounded 1; supervision_strategy = restart policy };
  parent_stopping_rx = 1;
  context = context;
  mailbox = mailbox_of (bounded 1) 4;
  restarts = 1;
  phase = receiving 0 10;
}

-- Its mailbox holds a message, the actor 6 watches it, and its parent stops it if `stopped`.
abbrev watcher : Watcher
watcher = record {
  watcher_id = 6;
  terminated_sink =
      counted_sender (record { item_tx = 7; quota = record { repr = Repr.unbounded } });
}

abbrev pub world : Bool → World ℕ ℕ
world stopped = record {
  heap = record empty_heap {
    wires = record {
      counts = update empty_heap.wires.counts 4 1;
      channels =
          update empty_heap.wires.channels 4 (record { items = message 5 ∷ []; closed = false });
    };
    registries = update empty_heap.registries 4 (some ((6, watcher) ∷ []));
  };
  stops = λ loc. record { count = 2; changed = if loc == 1 then stopped else false };
  tasks = λ loc. none;
  next = 20;
  log = [];
}

poll-stopped_example :
    let (t, w) = poll behaviours 12 task (world true) in
    (poll (λ n. behaviours 0) 12 task (world true) ≡ (t, w))
    × (IsEnding t.phase ⊎ (IsBackingOff t.phase × (¬ ⊥)) ⊎ ((t ≡ task) × (w ≡ world true) × ⊥))
poll-stopped_example =
    poll-stopped behaviours (λ n. behaviours 0) 12 task (world true) refl (λ b. b)

poll-Obeys_example : Obeys (restart policy) (poll behaviours 12 task (world false)).0
poll-Obeys_example =
    poll-Obeys (restart policy) behaviours 12 task (world false)
      (refl, (policy-IsValid, omega arith))

unwatch-deliver_example :
    let (c, h) = unwatch other task.context (world false).heap in
    let w1 : World ℕ ℕ = record (world false) { heap = h } in
    let t1 : Task ℕ = record task { context = c } in
    let (t, w) = deliver (behaviours 1) 0 10 12 (terminated 6) t1 w1 in
    (w ≡ w1) × (t.phase ≡ receiving 0 10) × (t.restarts ≡ 1) × (watches t.context 8 ≡ watches c 8)
unwatch-deliver_example = unwatch-deliver (behaviours 1) 0 10 12 other 8 task (world false)

terminate_lem_example :
    let (t, w) = terminate task (world true) in
    (is_gone_at 4 w.heap ≡ true)
    × (queue 4 w.heap ≡ [])
    × All (λ r. registered 3 w.heap r ≡ false) (values task.context.watched)
    × (t.context.watched ≡ [])
    × ((w.stops 5).changed ≡ true)
    × ((w.stops 5).count ≡ 1)
    × (t.phase ≡ terminating 5)
terminate_lem_example = terminate_lem task (world true) (omega arith)

finish_lem_example :
    let (t, w) = finish task (world true) in
    (w.heap.registries 4 ≡ none)
    × (queue 7 w.heap ≡ terminated 3 ∷ [])
    × (is_gone_at 7 w.heap ≡ false)
finish_lem_example = finish_lem task (world true) 7 refl
