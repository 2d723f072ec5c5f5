-- ===== src/Mailbox/Laws.antt =====
-- waltz/src/mailbox.rs: a mailbox whose calls do not overlap is a queue with a bound on its messages.
use waltz.Base.{
  ℕ, ◌≤◌, ◌<◌, ◌≡◌, refl, ap, ◌∙◌, ◌⊎◌, inr, Bool, true, false, not, Option, none, some, List, [],
  ◌∷◌, ◌++◌, Result, ok, err, ltb, if◌then◌else◌, arith,
}
use waltz.Base.Cells.{update, update_self}
use waltz.Extern.Flume.{Flume}
use waltz.Extern.Oneshot.{Oneshot}
use waltz.Quota.{Counts, usize_mod, Repr, Quota, unreserve, new_bounded, new_unbounded}
use waltz.Quota.Laws.{try_send_counted_lem, try_send_uncounted_lem}
use waltz.Actor.{ActorId, Incoming, message, terminated, messages, messages-append}
use waltz.Config.{MailboxCapacity, unbounded, bounded}
use waltz.Memory.{
  MailboxHandle, Mailbox, SendError, mailbox_full, actor_terminated, ActorTerminated, actor_gone,
  Heap,
}
use waltz.Mailbox.{
  try_send_message, terminated_sink, send_sink, send_counted_sink, recv, release_received,
  make_quota, make_mailbox, from_counted,
}

-- What a mailbox promises: a queue, open until its actor terminates.
pub record Spec (M : Type 0) : Type 0 where
  pub items : List (Incoming M)
  pub is_open : Bool

module _ {M : Type 0} where
  abbrev pub has_room : MailboxCapacity → List (Incoming M) → Bool
  has_room unbounded items = true
  has_room (bounded capacity) items = ltb (messages items) capacity

  abbrev pub enqueue : Incoming M → Spec M → Spec M
  enqueue incoming q = record { items = q.items ++ incoming ∷ []; is_open = q.is_open }

  -- A message: refused by a closed mailbox, and by one that is full of messages.
  unfoldable pub spec_send : MailboxCapacity → M → Spec M → Result (Unit {0}) SendError × Spec M
  spec_send capacity m q =
      if q.is_open
      then (if has_room capacity q.items
          then (ok tt, enqueue (message m) q)
          else (err mailbox_full, q))
      else (err actor_terminated, q)

  -- A signal: refused by a closed mailbox only.
  unfoldable pub spec_signal : ActorId → Spec M → Result (Unit {0}) ActorTerminated × Spec M
  spec_signal id q = if q.is_open then (ok tt, enqueue (terminated id) q) else (err actor_gone, q)

  abbrev pub spec_recv_at : List (Incoming M) → Bool → Option (Incoming M × Spec M)
  spec_recv_at [] is_open = none
  spec_recv_at (first ∷ items) is_open = some (first, record { items = items; is_open = is_open })

-- The quota, handle and receiving half that `make_mailbox` returns for cells at `loc`.
abbrev pub quota_of : MailboxCapacity → ℕ → Quota
quota_of unbounded loc = record { repr = Repr.unbounded }
quota_of (bounded capacity) loc = record { repr = Repr.bounded capacity loc }

abbrev pub handle_of : MailboxCapacity → ℕ → MailboxHandle
handle_of capacity loc = record {
  incoming_tx = record { item_tx = loc; quota = quota_of capacity loc };
  watcher_registry = record { registry = loc };
}

abbrev pub mailbox_of : MailboxCapacity → ℕ → Mailbox
mailbox_of capacity loc = record {
  incoming_rx = loc;
  watcher_registry = record { registry = loc };
  quota = quota_of capacity loc;
}

-- A `NonZeroUsize`.
abbrev pub Fits : MailboxCapacity → Type 0
Fits unbounded = Unit {0}
Fits (bounded capacity) = capacity < usize_mod

-- The count of an open bounded mailbox is that of the messages in it, and these fit.
abbrev pub IsCounted : {M : Type 0} → MailboxCapacity → ℕ → Spec M → Counts → Type 0
IsCounted unbounded loc q counts = Unit {0}
IsCounted (bounded capacity) loc q counts =
    (q.is_open ≡ false) ⊎ ((counts loc ≡ messages q.items) × (messages q.items ≤ capacity))

released-IsCounted :
    {M : Type 0} (capacity : MailboxCapacity) (loc : ℕ) (first : Incoming M) (q : Spec M)
    (counts : Counts)
    → Fits capacity
    → IsCounted capacity loc (record { items = first ∷ q.items; is_open = q.is_open }) counts
    → IsCounted capacity loc q (release_received (quota_of capacity loc) first counts)
unfolding release_received unreserve
released-IsCounted unbounded loc first q counts fits h = tt
released-IsCounted (bounded capacity) loc (message m) q counts fits h = ground arith
released-IsCounted (bounded capacity) loc (terminated id) q counts fits h = h

module _ {M : Type 0} ⦃flume : Flume (Incoming M)⦄ ⦃oneshot : Oneshot (Unit {0})⦄ where
  -- The cells at `loc` hold the mailbox `q`.
  pub record IsRep (capacity : MailboxCapacity) (loc : ℕ) (q : Spec M) (h : Heap M) : Type 0 where
    pub queued : flume.queued (h.wires.channels loc) ≡ q.items
    pub disconnected : flume.disconnected (h.wires.channels loc) ≡ not q.is_open
    pub counted : IsCounted capacity loc q h.wires.counts

  -- A new mailbox is open and empty, and its two halves share their cells.
  pub make_mailbox-IsRep :
      (capacity : MailboxCapacity) (loc : ℕ) (h : Heap M)
      → let (handle, mailbox, h') = make_mailbox capacity loc h in
        (handle ≡ handle_of capacity loc)
        × (mailbox ≡ mailbox_of capacity loc)
        × IsRep capacity loc (record { items = []; is_open = true }) h'
  unfolding make_mailbox make_quota new_bounded new_unbounded
  make_mailbox-IsRep unbounded loc h = (
    refl,
    refl,
    record {
      queued = ap flume.queued (update_self h.wires.channels loc _) ∙ flume.queued-unbounded;
      disconnected =
          ap flume.disconnected (update_self h.wires.channels loc _) ∙ flume.disconnected-unbounded;
      counted = tt;
    },
  )
  make_mailbox-IsRep (bounded capacity) loc h = (
    refl,
    refl,
    record {
      queued = ap flume.queued (update_self h.wires.channels loc _) ∙ flume.queued-unbounded;
      disconnected =
          ap flume.disconnected (update_self h.wires.channels loc _) ∙ flume.disconnected-unbounded;
      counted = inr (update_self h.wires.counts loc 0, omega arith);
    },
  )

  -- `try_send_message` answers and acts as the queue does.
  pub send-IsRep :
      (capacity : MailboxCapacity) (loc : ℕ) (m : M) (q : Spec M) (h : Heap M)
      → Fits capacity
      → IsRep capacity loc q h
      → let (result, h') = try_send_message (handle_of capacity loc) m h in
        (result ≡ (spec_send capacity m q).0) × IsRep capacity loc (spec_send capacity m q).1 h'
  unfolding try_send_message spec_send from_counted
  send-IsRep unbounded loc m q h fits rep =
      let sent =
        try_send_counted_lem (handle_of unbounded loc).incoming_tx (message m) h.wires loc fits in
      (ground arith, record { queued = ground arith; disconnected = ground arith; counted = tt })
  send-IsRep (bounded capacity) loc m q h fits rep =
      let sent =
        try_send_counted_lem (handle_of (bounded capacity) loc).incoming_tx (message m) h.wires loc
          fits in
      (
        ground arith,
        record {
          queued = ground arith;
          disconnected = ground arith;
          counted = ground (arith, messages-append q.items (message m ∷ []));
        },
      )

  -- A terminated signal passes a full mailbox and keeps its place behind what is queued.
  pub signal-IsRep :
      (capacity : MailboxCapacity) (loc : ℕ) (id : ActorId) (q : Spec M) (h : Heap M)
      → IsRep capacity loc q h
      → let (result, h') = send_sink (terminated_sink (handle_of capacity loc)) id h in
        (result ≡ (spec_signal id q).0) × IsRep capacity loc (spec_signal id q).1 h'
  unfolding send_sink send_counted_sink spec_signal terminated_sink
  signal-IsRep unbounded loc id q h rep =
      let sent =
        try_send_uncounted_lem (handle_of unbounded loc).incoming_tx (terminated id) h.wires in
      (ground arith, record { queued = ground arith; disconnected = ground arith; counted = tt })
  signal-IsRep (bounded capacity) loc id q h rep =
      let sent =
        try_send_uncounted_lem (handle_of (bounded capacity) loc).incoming_tx (terminated id)
          h.wires in
      (
        ground arith,
        record {
          queued = ground arith;
          disconnected = ground arith;
          counted = ground (arith, messages-append q.items (terminated id ∷ []));
        },
      )

  -- A poll of `recv` on an empty mailbox has nothing.
  pub recv_empty :
      (capacity : MailboxCapacity) (loc : ℕ) (q : Spec M) (h : Heap M)
      → IsRep capacity loc q h
      → q.items ≡ []
      → recv (mailbox_of capacity loc) h ≡ none
  unfolding recv
  recv_empty capacity loc q h rep e =
      rw (flume.recv_empty (h.wires.channels loc) (rep.queued ∙ e), recv)

  -- Otherwise it takes the oldest item, and makes room if that is a message.
  pub recv-IsRep :
      (capacity : MailboxCapacity) (loc : ℕ) (first : Incoming M) (q : Spec M) (h : Heap M)
      → Fits capacity
      → IsRep capacity loc (record { items = first ∷ q.items; is_open = q.is_open }) h
      → (h' : Heap M) × (recv (mailbox_of capacity loc) h ≡ some (first, h'))
        × IsRep capacity loc q h'
  unfolding recv
  recv-IsRep capacity loc first q h fits rep =
      let (c, got, rest, same) = flume.recv_first (h.wires.channels loc) first q.items rep.queued in
      (
        record h {
          wires = record {
            counts = release_received (quota_of capacity loc) first h.wires.counts;
            channels = update h.wires.channels loc c;
          };
        },
        rw (got, recv),
        record {
          queued = ap flume.queued (update_self h.wires.channels loc c) ∙ rest;
          disconnected =
              ap flume.disconnected (update_self h.wires.channels loc c) ∙ same ∙ rep.disconnected;
          counted = released-IsCounted capacity loc first q h.wires.counts fits rep.counted;
        },
      )
