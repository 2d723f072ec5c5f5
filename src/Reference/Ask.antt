-- ===== src/Reference/Ask.antt =====
-- waltz/src/ask.rs and waltz/src/actor_ref.rs: `ReplyTo` and `ask`. Boxed closures are functions on
-- the memory of the oneshots that asks wait on.
use waltz.Base.{ℕ, Bool, Option, none, some, Result, ok, err, List, ◌∷◌}
use mathlib.Core.Option
use waltz.Base.Cells.{Cells, update}
use waltz.Base.Duration.{Duration}
use waltz.Extern.Flume.{Flume}
use waltz.Extern.Oneshot.{Oneshot, RecvError}
use waltz.Extern.Timeout.{Timeout, Elapsed}
use waltz.Actor.{ActorId, Incoming}
use waltz.Memory.{SendError, mailbox_full, actor_terminated, Heap}
use waltz.Mailbox.{try_send_message}
use waltz.Reference.{ActorRef}

-- `send_reply` acts on a state `S`.
pub record ReplyTo (R S : Type 0) : Type 0 where
  pub send_reply : R → S → S

-- `ReplyTo::reply`.
unfoldable pub reply : {R S : Type 0} → ReplyTo R S → R → S → S
reply to r s = to.send_reply r s

pub data AskError : Type 0 where
  full : AskError
  terminated : AskError
  no_reply : AskError
  timed_out : Duration → AskError

-- `From<SendError> for AskError`.
unfoldable pub from_send : SendError → AskError
from_send mailbox_full = full
from_send actor_terminated = terminated

-- The oneshots that asks wait on, and the ids of the actors whose reply became a dead letter.
pub record Asks (R : Type 0) ⦃reply : Oneshot R⦄ : Type 0 where
  pub replies : Cells reply.Channel
  pub late_replies : List ActorId

module _ {R : Type 0} ⦃shot : Oneshot R⦄ where
  -- The closure that `ask` wraps: `reply_tx.send(reply)`, logged if the asker is gone.
  unfoldable pub send_reply_tx : ActorId → ℕ → R → Asks R → Asks R
  send_reply_tx actor_id tx r s =
      let (result, c) = shot.send r (s.replies tx) in
      record {
        replies = update s.replies tx c;
        late_replies = elim result [ ok _ ↦ s.late_replies | err _ ↦ actor_id ∷ s.late_replies ];
      }

  -- The `ReplyTo` of an ask whose oneshot is at `tx`.
  unfoldable pub ask_reply_to : ActorId → ℕ → ReplyTo R (Asks R)
  ask_reply_to actor_id tx = record { send_reply = send_reply_tx actor_id tx }

  -- What `ask` makes of the timeout's outcome.
  unfoldable pub ask_outcome : Duration → Result (Result R RecvError) Elapsed → Result R AskError
  ask_outcome within (ok (ok r)) = ok r
  ask_outcome within (ok (err e)) = err no_reply
  ask_outcome within (err e) = err (timed_out within)

  -- The future that `await` consumes drops `reply_rx` once it has resolved.
  unfoldable pub drop_resolved : ℕ → Option (Result R AskError) → Asks R → Asks R
  drop_resolved rx none s = s
  drop_resolved rx (some outcome) s = record s {
    replies = update s.replies rx (shot.drop_receiver (s.replies rx));
  }

  module _ ⦃timeout : Timeout (Result R RecvError)⦄ where
    -- One poll of the `await` in `ask`; `late` tells whether `within` has elapsed.
    unfoldable pub ask_poll : Duration → ℕ → Bool → Asks R → Option (Result R AskError) × Asks R
    unfolding drop_resolved
    ask_poll within rx late s =
        let outcome =
          Option.map (ask_outcome within) (timeout.poll (shot.poll (s.replies rx)) late) in
        (outcome, drop_resolved rx outcome s)

module _ {M R : Type 0} ⦃flume : Flume (Incoming M)⦄ ⦃oneshot : Oneshot (Unit {0})⦄
    ⦃shot : Oneshot R⦄ where
  -- The part of `ask` before its `await`: the oneshot is made at `tx`, and the request is sent like a
  -- tell. An error is returned at once, and drops the oneshot's receiver; otherwise the ask waits.
  unfoldable pub ask_send :
      ActorRef
      → (ReplyTo R (Asks R) → M)
      → ℕ
      → Asks R
      → Heap M
      → Result (Unit {0}) AskError × Asks R × Heap M
  ask_send r make_message tx s h =
      let opened = update s.replies tx shot.channel in
      let (result, h') =
        try_send_message r.mailbox_handle (make_message (ask_reply_to r.actor_id tx)) h in
      elim result [
        | ok _ ↦ (ok tt, record s { replies = opened }, h')
        | err e ↦ (
          err (from_send e),
          record s { replies = update opened tx (shot.drop_receiver (opened tx)) },
          h',
        )
      ]
