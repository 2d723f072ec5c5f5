-- ===== src/World.antt =====
-- waltz/src/actor_context.rs and waltz/src/actor.rs: the tasks of a system's actors, the code of the
-- actors as scripts of calls on their context, and `spawn`.
--
-- An actor's code is a parameter: `behaviours` says what `init` and `receive` do. A task's code
-- between two `await`s is one step.
use waltz.Base.{ℕ, ◌+◌, Option, some, List, ok, err}
use waltz.Base.Cells.{Cells, update}
use waltz.Base.Duration.{Duration}
use waltz.Extern.Flume.{Flume}
use waltz.Extern.Oneshot.{Oneshot}
use waltz.Extern.Watch.{Watch}
use waltz.Actor.{ActorId, Incoming, Control}
use waltz.Config.{ActorConfig}
use waltz.Restart.{Instant}
use waltz.Memory.{Mailbox, Heap}
use waltz.Reference.{ActorRef, new_self, tell}
use waltz.Context
use waltz.Context.{Context}

-- How a call of `init` or `receive` ends: in a value, an error or a panic.
pub data Outcome (A : Type 0) : Type 0 where
  value : A → Outcome A
  error : Outcome A
  panic : Outcome A

-- The calls that actor code makes, in order, on the context it is given and on references.
pub data Script (M A : Type 0) : Type 0 where
  returns : Outcome A → Script M A
  tells : ActorRef → M → Script M A → Script M A
  watches : ActorRef → Script M A → Script M A
  unwatches : ActorRef → Script M A → Script M A
  spawns : ℕ → ActorConfig → (ActorRef → Script M A) → Script M A
  -- `context.self_ref()`.
  self_refs : (ActorRef → Script M A) → Script M A

-- `Actor::init` and `Actor::receive` of one actor value.
pub record Behaviour (M S : Type 0) : Type 0 where
  pub init : Script M S
  pub receive : Incoming M → S → Script M (Control S)

-- Where a task stands in its run loop.
pub data Phase (S : Type 0) : Type 0 where
  -- At the head of `'run`.
  initializing : Phase S
  -- In the `select!` of the inner loop, with `state` and the instant of `up_since`.
  receiving : S → Instant → Phase S
  -- In `stop_children` before a restart: the delay, and the channel whose closing it awaits.
  stopping_children : Duration → ℕ → Phase S
  -- In the `select!` that waits until an instant before a restart.
  backing_off : Instant → Phase S
  -- In `terminate`, awaiting the closing of a channel.
  terminating : ℕ → Phase S
  finished : Phase S

-- `parent_stopping_rx` is the location of the parent's stop channel.
pub record Task (S : Type 0) : Type 0 where
  pub actor_id : ActorId
  pub behaviour : ℕ
  pub config : ActorConfig
  pub parent_stopping_rx : ℕ
  pub context : Context
  pub mailbox : Mailbox
  pub restarts : ℕ
  pub phase : Phase S

-- What the destructors and signals of a task do, for the order among them.
pub data Event : Type 0 where
  state_dropped : ActorId → Event
  messages_dropped : ActorId → ℕ → Event
  actor_dropped : ActorId → Event
  signaled : ActorId → ActorId → Event

-- `next` is the first location not in use. An actor's id is a location too: `Uuid::now_v7` returns
-- ids that are new. `log` has the newest event first.
pub record World (M S : Type 0) ⦃flume : Flume (Incoming M)⦄ ⦃oneshot : Oneshot (Unit {0})⦄
    ⦃watch : Watch⦄ : Type 0 where
  pub heap : Heap M
  pub stops : Cells watch.Channel
  pub tasks : Cells (Option (Task S))
  pub next : ℕ
  pub log : List Event

module _ {M S : Type 0} ⦃flume : Flume (Incoming M)⦄ ⦃oneshot : Oneshot (Unit {0})⦄
    ⦃watch : Watch⦄ where
  -- `spawn`: the mailbox is made at the new id, the context's stop channel behind it. The task starts
  -- with the receiver that it is given and the clone `rx`.
  unfoldable pub spawn : ℕ → ℕ → ActorConfig → World M S → ActorRef × World M S
  spawn parent_stopping_rx behaviour config w =
      let (self_ref, mailbox, h) = new_self w.next config.mailbox_capacity w.next w.heap in
      let task : Task S = record {
        actor_id = w.next;
        behaviour = behaviour;
        config = config;
        parent_stopping_rx = parent_stopping_rx;
        context = Context.new self_ref (w.next + 1);
        mailbox = mailbox;
        restarts = 0;
        phase = initializing;
      } in
      (
        self_ref.actor_ref,
        record w {
          heap = h;
          stops =
              update
                (update w.stops parent_stopping_rx
                  (watch.clone_receiver (w.stops parent_stopping_rx)))
                (w.next + 1) watch.channel;
          tasks = update w.tasks w.next (some task);
          next = w.next + 2;
        },
      )

  -- `ActorContext::spawn_with_config`: the child gets a clone of the context's receiver.
  unfoldable pub spawn_child : Context → ℕ → ActorConfig → World M S → ActorRef × World M S
  spawn_child c behaviour config w =
      spawn c.stopping behaviour config
        (record w { stops = update w.stops c.stopping (watch.clone_receiver (w.stops c.stopping)) })

  -- `ActorContext::stop_children` up to its `await`: the channel to await, and the next generation's.
  unfoldable pub stop_children : Context → World M S → ℕ × Context × World M S
  stop_children c w = (
    c.stopping,
    record c { stopping = w.next },
    record w {
      stops =
          update (update w.stops w.next watch.channel) c.stopping
            (watch.drop_receiver (watch.send (w.stops c.stopping)));
      next = w.next + 1;
    },
  )

  -- Actor code runs against its context and the world; a failed `expect` of `watch` is a panic.
  unfoldable pub run_script :
      {A : Type 0} → Script M A → Context → World M S → Outcome A × Context × World M S
  run_script (returns outcome) c w = (outcome, c, w)
  run_script (tells r m rest) c w = run_script rest c (record w { heap = tell r m w.heap })
  run_script (watches r rest) c w =
      let (result, c', h') = Context.watch r c w.heap in
      elim result [
        | ok _ ↦ run_script rest c' (record w { heap = h' })
        | err _ ↦ (panic, c', record w { heap = h' })
      ]
  run_script (self_refs rest) c w = run_script (rest c.self_ref.actor_ref) c w
  run_script (unwatches r rest) c w =
      let (c', h') = Context.unwatch r c w.heap in run_script rest c' (record w { heap = h' })
  run_script (spawns behaviour config rest) c w =
      let (child, w') = spawn_child c behaviour config w in run_script (rest child) c w'
