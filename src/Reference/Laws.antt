-- ===== src/Reference/Laws.antt =====
-- waltz/src/actor_ref.rs and waltz/src/ask.rs: what becomes of a message that is told, and of an ask.
use waltz.Base.{
  ℕ, ◌≡◌, refl, ap, ◌∙◌, Bool, true, false, Option, none, some, List, ◌∷◌, Result, ok, err,
}
use mathlib.Core.Option
use waltz.Base.Cells.{update_self}
use waltz.Base.Duration.{Duration}
use waltz.Extern.Flume.{Flume}
use waltz.Extern.Oneshot.{
  Oneshot, RecvError, recv_error, View, waiting, sent, abandoned, forsaken, view_send, view_poll,
}
use waltz.Extern.Timeout.{Timeout}
use waltz.Actor.{ActorId, Incoming}
use waltz.Config.{MailboxCapacity}
use waltz.Memory.{SendError, DeadLetter, Heap}
use waltz.Mailbox.{try_send_message}
use waltz.Mailbox.Laws.{Spec, spec_send, handle_of, Fits, IsRep, send-IsRep}
use waltz.Reference.{tell, dead_letter}
use waltz.Reference.Ask.{
  reply, AskError, no_reply, timed_out, Asks, send_reply_tx, ask_reply_to, ask_outcome,
  drop_resolved, ask_poll,
}

-- The dead letters that a result of a send leaves.
abbrev pub letters : ActorId → Result (Unit {0}) SendError → List DeadLetter → List DeadLetter
letters id (ok _) log = log
letters id (err e) log = record { actor_id = id; error = e } ∷ log

module _ {M : Type 0} ⦃flume : Flume (Incoming M)⦄ ⦃oneshot : Oneshot (Unit {0})⦄ where
  -- A message that is told is either enqueued behind all others or logged as one dead letter with
  -- the reason, and never both: the mailbox and the log change as the queue's `spec_send` says.
  pub tell_lem :
      (id : ActorId) (capacity : MailboxCapacity) (loc : ℕ) (m : M) (q : Spec M) (h : Heap M)
      → Fits capacity
      → IsRep capacity loc q h
      → let (result, q') = spec_send capacity m q in
        let h' = tell (record { actor_id = id; mailbox_handle = handle_of capacity loc }) m h in
        IsRep capacity loc q' h' × (h'.dead_letters ≡ letters id result h.dead_letters)
  unfolding tell try_send_message
  tell_lem id capacity loc m q h fits rep =
      let (same, rep') = send-IsRep capacity loc m q h fits rep in
      let (kept, logged) = at (try_send_message (handle_of capacity loc) m h).0 rep' in
      (kept, logged ∙ ap (λ (r : Result (Unit {0}) SendError). letters id r h.dead_letters) same)
    where
      after : Result (Unit {0}) SendError → Heap M
      after result = elim result [
        | ok _ ↦ (try_send_message (handle_of capacity loc) m h).1
        | err e ↦
            dead_letter (record { actor_id = id; mailbox_handle = handle_of capacity loc }) e
              (try_send_message (handle_of capacity loc) m h).1
      ]

      at :
          (result : Result (Unit {0}) SendError)
          → IsRep capacity loc
              (spec_send capacity m q).1
              (try_send_message (handle_of capacity loc) m h).1
          → IsRep capacity loc (spec_send capacity m q).1 (after result)
            × ((after result).dead_letters ≡ letters id result h.dead_letters)
      at (ok _) rep' = (rep', refl)
      at (err e) rep' = (
        record { queued = rep'.queued; disconnected = rep'.disconnected; counted = rep'.counted },
        refl,
      )

module _ {R : Type 0} ⦃shot : Oneshot R⦄ ⦃timeout : Timeout (Result R RecvError)⦄ where
  -- How an ask ends, by how far its oneshot has come and by whether its time is up.
  abbrev pub resolution : Duration → View R → Bool → Option (Result R AskError)
  resolution within (sent r) late = some (ok r)
  resolution within abandoned late = some (err no_reply)
  resolution within waiting true = some (err (timed_out within))
  resolution within waiting false = none
  resolution within forsaken true = some (err (timed_out within))
  resolution within forsaken false = none

  -- What a resolution leaves of the oneshot.
  abbrev pub left : Option (Result R AskError) → View R → View R
  left none v = v
  left (some outcome) v = forsaken

  ask_poll-resolution :
      (within : Duration) (rx : ℕ) (late : Bool) (s : Asks R)
      → (ask_poll within rx late s).0 ≡ resolution within (shot.view (s.replies rx)) late
  unfolding ask_poll ask_outcome
  ask_poll-resolution within rx late s =
      rw (shot.poll_lem (s.replies rx)) (at (shot.view (s.replies rx)) late)
    where
      at :
          (v : View R) (late : Bool)
          → Option.map (ask_outcome within) (timeout.poll (view_poll v) late)
            ≡ resolution within v late
      at (sent r) late = rw (timeout.poll_ready (ok r) late)
      at abandoned late = rw (timeout.poll_ready (err recv_error) late)
      at waiting true = rw timeout.poll_late
      at waiting false = rw timeout.poll_pending
      at forsaken true = rw timeout.poll_late
      at forsaken false = rw timeout.poll_pending

  view-drop_resolved :
      (outcome : Option (Result R AskError)) (rx : ℕ) (s : Asks R)
      → (shot.view ((drop_resolved rx outcome s).replies rx)
          ≡ left outcome (shot.view (s.replies rx)))
        × ((drop_resolved rx outcome s).late_replies ≡ s.late_replies)
  unfolding drop_resolved
  view-drop_resolved none rx s = (refl, refl)
  view-drop_resolved (some outcome) rx s =
      (ap shot.view (update_self s.replies rx _) ∙ shot.view-drop_receiver (s.replies rx), refl)

  -- A poll of an ask resolves with the reply once there is one, with `NoReply` once its `ReplyTo` was
  -- dropped without one, both also when the time is up, and otherwise as `Timeout` exactly once the
  -- time is up. Only if it resolves the receiver is gone behind it, and it logs no late reply.
  pub ask_poll_lem :
      (within : Duration) (rx : ℕ) (late : Bool) (s : Asks R)
      → let (outcome, s') = ask_poll within rx late s in
        let expected = resolution within (shot.view (s.replies rx)) late in
        (outcome ≡ expected)
        × (shot.view (s'.replies rx) ≡ left expected (shot.view (s.replies rx)))
        × (s'.late_replies ≡ s.late_replies)
  unfolding ask_poll
  ask_poll_lem within rx late s =
      let same = ask_poll-resolution within rx late s in
      let (views, letters_kept) = view-drop_resolved (ask_poll within rx late s).0 rx s in
      (same, views ∙ ap (λ o. left o (shot.view (s.replies rx))) same, letters_kept)

  view-send_reply_tx :
      (id : ActorId) (tx : ℕ) (r : R) (s : Asks R)
      → shot.view ((reply (ask_reply_to id tx) r s).replies tx)
        ≡ (view_send r (shot.view (s.replies tx))).1
  unfolding reply ask_reply_to send_reply_tx
  view-send_reply_tx id tx r s =
      ap shot.view (update_self s.replies tx _) ∙ shot.view-send r (s.replies tx)

  -- A reply that is sent while the ask waits resolves it, whether its time is up or not, and is no
  -- dead letter.
  pub reply-ask_poll :
      (id : ActorId) (within : Duration) (tx : ℕ) (late : Bool) (r : R) (s : Asks R)
      → shot.view (s.replies tx) ≡ waiting
      → let s' = reply (ask_reply_to id tx) r s in
        ((ask_poll within tx late s').0 ≡ some (ok r)) × (s'.late_replies ≡ s.late_replies)
  unfolding reply ask_reply_to send_reply_tx
  reply-ask_poll id within tx late r s waits = (
    ask_poll-resolution within tx late (reply (ask_reply_to id tx) r s)
        ∙ ap (λ (v : View R). resolution within v late)
            (view-send_reply_tx id tx r s ∙ ap (λ (v : View R). (view_send r v).1) waits),
    rw (shot.send_result r (s.replies tx), waits),
  )

  reply_forsaken :
      (id : ActorId) (tx : ℕ) (r : R) (s : Asks R)
      → shot.view (s.replies tx) ≡ forsaken
      → (reply (ask_reply_to id tx) r s).late_replies ≡ id ∷ s.late_replies
  unfolding reply ask_reply_to send_reply_tx
  reply_forsaken id tx r s gone = rw (shot.send_result r (s.replies tx), gone)

  -- A reply that comes after the time of its ask: the poll at which the time is up resolves the ask as
  -- `Timeout`, and the reply that is sent behind it is dropped, is logged as one dead letter under the
  -- responder's id, and leaves the receiver gone.
  pub late_reply :
      (id : ActorId) (within : Duration) (tx : ℕ) (r : R) (s : Asks R)
      → shot.view (s.replies tx) ≡ waiting
      → let (outcome, s') = ask_poll within tx true s in
        let s'' = reply (ask_reply_to id tx) r s' in
        (outcome ≡ some (err (timed_out within)))
        × (s''.late_replies ≡ id ∷ s.late_replies)
        × (shot.view (s''.replies tx) ≡ forsaken)
  late_reply id within tx r s waits =
      let (outcome, views, kept) = ask_poll_lem within tx true s in
      let s' = (ask_poll within tx true s).1 in
      let gone : shot.view (s'.replies tx) ≡ forsaken =
        views ∙ ap (λ (v : View R). left (resolution within v true) v) waits in
      (
        outcome ∙ ap (λ (v : View R). resolution within v true) waits,
        reply_forsaken id tx r s' gone ∙ ap (λ l. id ∷ l) kept,
        view-send_reply_tx id tx r s' ∙ ap (λ (v : View R). (view_send r v).1) gone,
      )
