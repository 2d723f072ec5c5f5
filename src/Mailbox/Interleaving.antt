-- ===== src/Mailbox/Interleaving.antt =====
-- waltz/src/quota.rs and waltz/src/mailbox.rs: many senders and the receiver of one bounded mailbox,
-- each of whose atomic accesses may be interleaved with those of the others. A counted send is three
-- of them: the reservation, the enqueueing, and, if that failed, the release; a receive is two.
pub mod Count
pub mod Senders
pub mod Receiver
pub mod Safety
use waltz.Base.{ℕ, ◌≡◌, List, ◌∷◌, ◌++◌, some, Result, ok, err}
use waltz.Base.Cells.{update}
use waltz.Extern.Flume.{Flume}
use waltz.Quota.{Counts, Repr, Quota, Full, Reservation, reserve, commit, drop}
use waltz.Quota.Sender.{CountedSender, Wires, send_at, try_send_uncounted}
use waltz.Actor.{ActorId, Incoming, message, terminated}
use waltz.Mailbox.{release_received}

-- Where a sending thread stands.
pub data Sending (M : Type 0) : Type 0 where
  idle : Sending M
  -- In `try_send_counted`, behind `reserve`.
  reserved : Incoming M → Reservation → Sending M
  -- The channel was disconnected; the reservation is about to be dropped.
  failed : Reservation → Sending M

-- Where the actor's task stands with its mailbox.
pub data Receiving (M : Type 0) : Type 0 where
  polling : Receiving M
  -- In `recv`, behind the dequeueing.
  received : Incoming M → Receiving M
  -- In `terminate`, behind the drain.
  drained : Receiving M
  closed : Receiving M

pub record State (M : Type 0) ⦃flume : Flume (Incoming M)⦄ : Type 0 where
  pub wires : Wires (Incoming M)
  pub senders : List (Sending M)
  pub receiver : Receiving M

-- The mailbox's quota counts at `cell`, its channel stands at `loc`.
abbrev pub the_quota : ℕ → ℕ → Quota
the_quota capacity cell = record { repr = Repr.bounded capacity cell }

abbrev pub the_sender : ℕ → ℕ → ℕ → CountedSender
the_sender loc capacity cell = record { item_tx = loc; quota = the_quota capacity cell }

module _ {M : Type 0} ⦃flume : Flume (Incoming M)⦄ (loc capacity cell : ℕ) where
  -- One atomic access, by the thread between `xs` and `ys` or by the receiver.
  pub data Step (s t : State M) : Type 0 where
    reserves :
        (xs ys : List (Sending M)) (m : M) (r : Reservation)
        → s.senders ≡ xs ++ idle ∷ ys
        → (reserve (the_quota capacity cell) s.wires.counts).0 ≡ ok r
        → t ≡ record s {
          wires = record s.wires { counts = (reserve (the_quota capacity cell) s.wires.counts).1 };
          senders = xs ++ reserved (message m) r ∷ ys;
        }
        → Step s t
    -- The relaxed load of `try_update` may find a stale count, on which it refuses without a write.
    -- Any count is allowed here. (To grant, it exchanges the latest count, as in `reserves`.) The
    -- result is reported once the thread has looked whether the channel is disconnected.
    is_refused :
        (stale : Counts)
        → (reserve (the_quota capacity cell) stale).0 ≡ err Full.full
        → t ≡ s
        → Step s t
    sends :
        (xs ys : List (Sending M)) (item : Incoming M) (r : Reservation)
        → s.senders ≡ xs ++ reserved item r ∷ ys
        → (send_at loc item s.wires).0 ≡ ok tt
        → t ≡ record s {
          wires = record {
            counts = drop (commit r) (send_at loc item s.wires).1.counts;
            channels = (send_at loc item s.wires).1.channels;
          };
          senders = xs ++ idle ∷ ys;
        }
        → Step s t
    fails :
        (xs ys : List (Sending M)) (item : Incoming M) (r : Reservation)
        → s.senders ≡ xs ++ reserved item r ∷ ys
        → (send_at loc item s.wires).0 ≡ err item
        → t ≡ record s { wires = (send_at loc item s.wires).1; senders = xs ++ failed r ∷ ys }
        → Step s t
    releases :
        (xs ys : List (Sending M)) (r : Reservation)
        → s.senders ≡ xs ++ failed r ∷ ys
        → t ≡ record s {
          wires = record s.wires { counts = drop r s.wires.counts };
          senders = xs ++ idle ∷ ys;
        }
        → Step s t
    -- A terminated signal, sent by any task.
    signals :
        (id : ActorId)
        → t ≡ record s {
          wires = (try_send_uncounted (the_sender loc capacity cell) (terminated id) s.wires).1;
        }
        → Step s t
    receives :
        (incoming : Incoming M) (c : flume.Channel)
        → s.receiver ≡ polling
        → flume.recv (s.wires.channels loc) ≡ some (incoming, c)
        → t ≡ record s {
          wires = record s.wires { channels = update s.wires.channels loc c };
          receiver = received incoming;
        }
        → Step s t
    unreserves :
        (incoming : Incoming M)
        → s.receiver ≡ received incoming
        → t ≡ record s {
          wires = record s.wires {
            counts = release_received (the_quota capacity cell) incoming s.wires.counts;
          };
          receiver = polling;
        }
        → Step s t
    drains :
        s.receiver ≡ polling
        → t ≡ record s {
          wires = record s.wires {
            channels = update s.wires.channels loc (flume.drain (s.wires.channels loc)).1;
          };
          receiver = drained;
        }
        → Step s t
    closes :
        s.receiver ≡ drained
        → t ≡ record s {
          wires = record s.wires {
            channels = update s.wires.channels loc (flume.close (s.wires.channels loc));
          };
          receiver = closed;
        }
        → Step s t

  -- A new mailbox, and `n` threads that may send to it.
  pub data Reach (s : State M) : State M → Type 0 where
    here : Reach s s
    next : {t u : State M} → Reach s t → Step t u → Reach s u
