-- ===== src/Mailbox/Refinement.antt =====
-- waltz/src/mailbox.rs: a mailbox refines a queue with a bound on its messages, over every sequence
-- of calls on a new one, whichever clones of its handle they go through.
use waltz.Base.{
  ℕ, ◌≡◌, refl, ap, ap₂, ◌∙◌, inl, Bool, true, false, Option, none, some, List, [], ◌∷◌, Result,
}
use waltz.Base.Cells.{update, update_self}
use waltz.Extern.Flume.{Flume}
use waltz.Extern.Oneshot.{Oneshot}
use waltz.Quota.{Counts}
use waltz.Actor.{ActorId, Incoming}
use waltz.Config.{MailboxCapacity, unbounded, bounded}
use waltz.Memory.{MailboxHandle, Mailbox, SendError, ActorTerminated, Heap}
use waltz.Mailbox.{try_send_message, terminated_sink, send_sink, recv, make_mailbox}
use waltz.Mailbox.Laws.{
  Spec, spec_send, spec_signal, spec_recv_at, handle_of, mailbox_of, Fits, IsCounted, IsRep,
  make_mailbox-IsRep, send-IsRep, signal-IsRep, recv_empty, recv-IsRep,
}

pub data Call (M : Type 0) : Type 0 where
  tells : M → Call M
  signals : ActorId → Call M
  polls : Call M
  -- The drain and the drop of the receiver, at termination.
  closes : Call M

pub data Reply (M : Type 0) : Type 0 where
  told : Result (Unit {0}) SendError → Reply M
  signaled : Result (Unit {0}) ActorTerminated → Reply M
  polled : Option (Incoming M) → Reply M
  closed : Reply M

module _ {M : Type 0} where
  abbrev spec_poll_at : Spec M → Option (Incoming M × Spec M) → Reply M × Spec M
  spec_poll_at q none = (polled none, q)
  spec_poll_at q (some (incoming, q')) = (polled (some incoming), q')

  unfoldable pub spec_call : MailboxCapacity → Call M → Spec M → Reply M × Spec M
  spec_call capacity (tells m) q = let (result, q') = spec_send capacity m q in (told result, q')
  spec_call capacity (signals id) q = let (result, q') = spec_signal id q in (signaled result, q')
  spec_call capacity polls q = spec_poll_at q (spec_recv_at q.items q.is_open)
  spec_call capacity closes q = (closed, record { items = []; is_open = false })

  unfoldable pub spec_replies : MailboxCapacity → List (Call M) → Spec M → List (Reply M)
  spec_replies capacity [] q = []
  spec_replies capacity (c ∷ calls) q =
      let (reply, q') = spec_call capacity c q in reply ∷ spec_replies capacity calls q'

closed-IsCounted :
    (M : Type 0) (capacity : MailboxCapacity) (loc : ℕ) (counts : Counts)
    → IsCounted {M = M} capacity loc (record { items = []; is_open = false }) counts
closed-IsCounted M unbounded loc counts = tt
closed-IsCounted M (bounded capacity) loc counts = inl refl

module _ {M : Type 0} ⦃flume : Flume (Incoming M)⦄ ⦃oneshot : Oneshot (Unit {0})⦄ where
  abbrev poll_at : Heap M → Option (Incoming M × Heap M) → Reply M × Heap M
  poll_at h none = (polled none, h)
  poll_at h (some (incoming, h')) = (polled (some incoming), h')

  close_channel : Mailbox → Heap M → Heap M
  close_channel mailbox h = record h {
    wires = record h.wires {
      channels =
          update h.wires.channels mailbox.incoming_rx
            (flume.close (flume.drain (h.wires.channels mailbox.incoming_rx)).1);
    };
  }

  pub call : MailboxHandle → Mailbox → Call M → Heap M → Reply M × Heap M
  unfolding close_channel
  call handle mailbox (tells m) h =
      let (result, h') = try_send_message handle m h in (told result, h')
  call handle mailbox (signals id) h =
      let (result, h') = send_sink (terminated_sink handle) id h in (signaled result, h')
  call handle mailbox polls h = poll_at h (recv mailbox h)
  call handle mailbox closes h = (closed, close_channel mailbox h)

  pub replies : MailboxHandle → Mailbox → List (Call M) → Heap M → List (Reply M)
  replies handle mailbox [] h = []
  replies handle mailbox (c ∷ calls) h =
      let (reply, h') = call handle mailbox c h in reply ∷ replies handle mailbox calls h'

  module _ (capacity : MailboxCapacity) (loc : ℕ) (fits : Fits capacity) where
    -- One call on the mailbox `q` gives the reply of the queue and leaves the queue's next state.
    abbrev Agrees : Spec M → Reply M × Heap M → Reply M × Spec M → Type 0
    Agrees q (reply, h') (reply', q') = (reply ≡ reply') × IsRep capacity loc q' h'

    polls-Agrees :
        (items : List (Incoming M)) (is_open : Bool) (h : Heap M)
        → IsRep capacity loc (record { items = items; is_open = is_open }) h
        → let q : Spec M = record { items = items; is_open = is_open } in
          Agrees q
            (call (handle_of capacity loc) (mailbox_of capacity loc) polls h)
            (spec_call capacity polls q)
    unfolding call spec_call
    polls-Agrees [] is_open h rep =
        rw (recv_empty capacity loc (record { items = []; is_open = is_open }) h rep refl)
          (refl, rep)
    polls-Agrees (first ∷ items) is_open h rep =
        let q : Spec M = record { items = items; is_open = is_open } in
        let (h', got, rep') = recv-IsRep capacity loc first q h fits rep in rw got (refl, rep')

    closed-IsRep :
        (h : Heap M)
        → IsRep capacity loc
            (record { items = []; is_open = false })
            (close_channel (mailbox_of capacity loc) h)
    unfolding close_channel
    closed-IsRep h =
        let c = h.wires.channels loc in
        let there = update_self h.wires.channels loc (flume.close (flume.drain c).1) in
        record {
          queued =
              ap flume.queued there ∙ flume.queued-close (flume.drain c).1 ∙ flume.queued-drain c;
          disconnected = ap flume.disconnected there ∙ flume.disconnected-close (flume.drain c).1;
          counted = closed-IsCounted M capacity loc h.wires.counts;
        }

    call-Agrees :
        (c : Call M) (q : Spec M) (h : Heap M)
        → IsRep capacity loc q h
        → Agrees q
            (call (handle_of capacity loc) (mailbox_of capacity loc) c h)
            (spec_call capacity c q)
    unfolding call spec_call
    call-Agrees (tells m) q h rep =
        let (same, rep') = send-IsRep capacity loc m q h fits rep in (ap told same, rep')
    call-Agrees (signals id) q h rep =
        let (same, rep') = signal-IsRep capacity loc id q h rep in (ap signaled same, rep')
    call-Agrees polls q h rep = polls-Agrees q.items q.is_open h rep
    call-Agrees closes q h rep = (refl, closed-IsRep h)

    replies-Agree :
        (calls : List (Call M)) (q : Spec M) (h : Heap M)
        → IsRep capacity loc q h
        → replies (handle_of capacity loc) (mailbox_of capacity loc) calls h
          ≡ spec_replies capacity calls q
    unfolding replies spec_replies
    replies-Agree [] q h rep = refl
    replies-Agree (c ∷ calls) q h rep =
        let (same, rep') = call-Agrees c q h rep in ap₂ ◌∷◌ same (replies-Agree calls _ _ rep')

  -- Refinement: on a new mailbox every sequence of tells, signals, polls and a closing gets, call by
  -- call, the replies of the queue. So messages and signals come out in the order in which they
  -- went in, a message is refused exactly while `capacity` messages wait or after the closing, and
  -- a signal only after it.
  pub replies-spec_replies :
      (capacity : MailboxCapacity) (loc : ℕ) (h : Heap M) (calls : List (Call M))
      → Fits capacity
      → let (handle, mailbox, h') = make_mailbox capacity loc h in
        replies handle mailbox calls h'
        ≡ spec_replies capacity calls (record { items = []; is_open = true })
  replies-spec_replies capacity loc h calls fits =
      let (handle, mailbox, rep) = make_mailbox-IsRep capacity loc h in
      rw (handle, mailbox) (replies-Agree capacity loc fits calls _ _ rep)
