-- ===== src/Lib.antt =====
-- waltz, an actor library (waltz/src): a mailbox per actor, references to send to it, a context
-- for the actor's code, a task that runs the code, and a system with the root of the tree of
-- actors.
--
-- Parts, with the file that models each and the code it follows:
--   Base: types and lemmas that the parts share; Duration is in nanoseconds.
--   Extern: what the code uses of flume, and of tokio's oneshot, watch and timeout. Each is a
--     record of operations and of the laws that their documentation states, an instance argument of
--     all that uses it, with a concrete instance beside it.
--   Quota and Quota.Sender: waltz/src/quota.rs. A count is a cell; `reserve`, `unreserve`,
--     `commit` and `drop` act on it. `usize` wraps at 2 ^ 64.
--   Backoff, Config, Restart: waltz/src/backoff.rs, waltz/src/actor_config.rs, and `next_restart`
--     of waltz/src/actor_context.rs. `u32` wraps at 2 ^ 32.
--   Actor, Memory, Mailbox: waltz/src/actor.rs, waltz/src/actor_id.rs and waltz/src/mailbox.rs.
--     An `Arc` is the location of a cell of the `Heap`, so that clones share it; the mutex of a
--     registry makes each of its operations one access. Mailbox.Interleaving has one step for each
--     atomic access of senders and receiver, with refusals on stale counts; Mailbox.Refinement has
--     the mailbox as one queue; Mailbox.Registry has the registry under any order of operations.
--   Reference and Reference.Ask: waltz/src/actor_ref.rs and waltz/src/ask.rs.
--   Context: waltz/src/actor_context.rs, `ActorContext`.
--   World, RunLoop and RunLoop.Terminate: waltz/src/actor_context.rs, `spawn`, `catch_and_log`
--     and `terminate`. A task has a phase for each `await` of its code, and `poll` is one step from
--     an `await` to the next; the instant of the step is an argument.
--   System: waltz/src/actor_system.rs.
--   Tree: what the stop channels make of the tasks of waltz/src/actor_context.rs. A node has what
--     counts of a task, and a `TreeStep` is given by what it makes of each channel and node.
--     Tree.Moves to Tree.Polls show that a poll is such steps, and Tree.Reached has the worlds that
--     a system reaches from `spawn_root`: its tasks are polled in any order, between which code
--     outside of the actors may do anything to the heap. RunLoop.Kept has the changes that a poll
--     is made of, and that a poll keeps what each of them keeps; System.Awaited has the wait of a
--     system on top.
--   Examples: waltz/examples/scatter_gather.rs, waltz/examples/work_pulling.rs,
--     waltz/examples/supervision.rs, waltz/examples/device_manager.rs, waltz/examples/counter.rs
--     and waltz/examples/hello.rs, whose actors are scripts on the context. A `ReplyTo` in a
--     message is the actor that it tells.
--   Report: waltz-comparison/src/bin/report.rs, up to its markup. A text is the list of its code
--     points.
--   Tests: runs at concrete inputs.
--
-- Actor code is a parameter, a script of calls on the context that ends in a value, an error or a
-- panic. All loops are structural, so that nothing runs on fuel.
--
-- Simplified: the messages of all actors are of one type, ids are locations that are new, as
-- those of `Uuid::now_v7` are. Between two `await`s a task runs alone, but for
-- Mailbox.Interleaving, Mailbox.Registry and the registration of the root. The clone of the
-- parent's receiver that a task makes in its first step is made in `spawn`. But for
-- Mailbox.Interleaving, a relaxed access to a count finds the latest value; Examples.Receives has
-- the items that are delivered one after the other, without a stop by the parent.
-- Not modelled: an ask whose future is dropped before it resolves; what destructors of actors,
-- states and messages do, beside their place in the order of events; the drop of the root's stop
-- channel, which happens after the root's end; changes that actor code makes to its own actor
-- value; text of logs; serde attributes, `Debug` and `Hash`; waltz/src/sync.rs and
-- waltz/src/lib.rs, which keep no state; what the examples print, and their `main`; the benches;
-- of waltz-comparison/src/bin/report.rs the files, the commands and the page around the sections.
pub mod Base
pub mod Backoff
pub mod Config
pub mod Restart
pub mod Extern
pub mod Quota
pub mod Actor
pub mod Memory
pub mod Mailbox
pub mod Reference
pub mod Context
pub mod World
pub mod RunLoop
pub mod System
pub mod Tree
pub mod Report
pub mod Examples
pub mod Tests
