-- ===== src/Reference.antt =====
-- waltz/src/actor_ref.rs and waltz/src/ask.rs: references to actors, `tell` and `ask`.
pub mod Ask
pub mod Laws
use waltz.Base.{ℕ, Bool, Option, none, some, List, [], ◌∷◌, Result, ok, err, ◌==◌}
use waltz.Extern.Flume.{Flume}
use waltz.Extern.Oneshot.{Oneshot}
use waltz.Actor.{ActorId, Incoming}
use waltz.Config.{MailboxCapacity}
use waltz.Memory.{
  WatcherRegistry, MailboxHandle, Mailbox, TerminatedSink, Watcher, SendError, DeadLetter,
  ActorTerminated, Heap,
}
use waltz.Mailbox.{try_send_message, terminated_sink, send_sink, make_mailbox}

pub record ActorRef : Type 0 where
  pub actor_id : ActorId
  pub mailbox_handle : MailboxHandle

-- `PartialEq` is by id alone.
unfoldable pub eq : ActorRef → ActorRef → Bool
eq a b = a.actor_id == b.actor_id

unfoldable pub watcher_registry : ActorRef → WatcherRegistry
watcher_registry r = r.mailbox_handle.watcher_registry

pub record SelfRef : Type 0 where
  pub actor_ref : ActorRef
  pub terminated_sink : TerminatedSink

unfoldable pub make_watcher : SelfRef → Watcher
make_watcher self = record {
  watcher_id = self.actor_ref.actor_id;
  terminated_sink = self.terminated_sink;
}

module _ {M : Type 0} ⦃flume : Flume (Incoming M)⦄ ⦃oneshot : Oneshot (Unit {0})⦄ where
  -- `ActorRef::dead_letter`: the warning is appended to the log.
  unfoldable pub dead_letter : ActorRef → SendError → Heap M → Heap M
  dead_letter r error h = record h {
    dead_letters = record { actor_id = r.actor_id; error = error } ∷ h.dead_letters;
  }

  -- `ActorRef::tell`.
  unfoldable pub tell : ActorRef → M → Heap M → Heap M
  unfolding dead_letter
  tell r m h =
      let (result, h') = try_send_message r.mailbox_handle m h in
      elim result [ ok _ ↦ h' | err error ↦ dead_letter r error h' ]

  -- `SelfRef::new`, with the cells of `make_mailbox` at `loc`.
  unfoldable pub new_self : ActorId → MailboxCapacity → ℕ → Heap M → SelfRef × Mailbox × Heap M
  new_self actor_id capacity loc h =
      let (handle, mailbox, h') = make_mailbox capacity loc h in
      (
        record {
          actor_ref = record { actor_id = actor_id; mailbox_handle = handle };
          terminated_sink = terminated_sink handle;
        },
        mailbox,
        h',
      )

  -- `SelfRef::send_terminated`: the result is the one that `expect` takes apart, so an error is the
  -- panic.
  unfoldable pub send_own_terminated :
      SelfRef → ActorId → Heap M → Result (Unit {0}) ActorTerminated × Heap M
  send_own_terminated self actor_id h = send_sink self.terminated_sink actor_id h
