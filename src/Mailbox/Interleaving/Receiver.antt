-- ===== src/Mailbox/Interleaving/Receiver.antt =====
-- The steps of the receiver keep the count of a bounded mailbox right.
use waltz.Base.{ℕ, ◌+◌, ◌-◌, ◌%◌, ◌<◌, ◌≡◌, ap, ◌∙◌, some, arith}
use waltz.Base.Cells.{update, update_self}
use waltz.Extern.Flume.{Flume}
use waltz.Quota.{usize_mod, unreserve}
use waltz.Actor.{Incoming, message, terminated, messages}
use waltz.Mailbox.{release_received}
use waltz.Mailbox.Interleaving.{polling, received, drained, closed, State, the_quota}
use waltz.Mailbox.Interleaving.Count.{owing, is_live, Inv, recv_messages}

module _ {M : Type 0} ⦃flume : Flume (Incoming M)⦄ (loc capacity cell : ℕ) where
  module _ (small : capacity < usize_mod) where
    pub receives-Inv :
        (s : State M) (incoming : Incoming M) (c : flume.Channel)
        → s.receiver ≡ polling
        → flume.recv (s.wires.channels loc) ≡ some (incoming, c)
        → Inv loc capacity cell s
        → Inv loc capacity cell (record s {
          wires = record s.wires { channels = update s.wires.channels loc c };
          receiver = received incoming;
        })
    receives-Inv s incoming c here got v =
        let queue = recv_messages (s.wires.channels loc) incoming c got in
        let mine = ap messages (ap flume.queued (update_self s.wires.channels loc c)) in
        record {
          own = v.own;
          fits = v.fits;
          covered = omega (arith, v.covered, queue, mine, ap owing here);
          exact = λ live. omega (arith, v.exact (ap is_live here), queue, mine, ap owing here);
        }

    pub unreserves-Inv :
        (s : State M) (incoming : Incoming M)
        → s.receiver ≡ received incoming
        → Inv loc capacity cell s
        → Inv loc capacity cell (record s {
          wires = record s.wires {
            counts = release_received (the_quota capacity cell) incoming s.wires.counts;
          };
          receiver = polling;
        })
    unfolding release_received unreserve
    unreserves-Inv s (message m) here v =
        let owed = ap owing here in
        let count : update s.wires.counts cell ((s.wires.counts cell + usize_mod - 1) % usize_mod)
              cell
            ≡ s.wires.counts cell - 1 =
          ground (arith, v.covered, v.fits) in
        record {
          own = v.own;
          fits = omega (arith, v.fits, count);
          covered = omega (arith, v.covered, count, owed);
          exact = λ live. omega (arith, v.exact (ap is_live here), count, owed);
        }
    unreserves-Inv s (terminated id) here v = record {
      own = v.own;
      fits = v.fits;
      covered = omega (arith, v.covered, ap owing here);
      exact = λ live. omega (arith, v.exact (ap is_live here), ap owing here);
    }

    pub drains-Inv :
        (s : State M)
        → s.receiver ≡ polling
        → Inv loc capacity cell s
        → Inv loc capacity cell (record s {
          wires = record s.wires {
            channels = update s.wires.channels loc (flume.drain (s.wires.channels loc)).1;
          };
          receiver = drained;
        })
    drains-Inv s here v =
        let queue = ap messages (
          ap flume.queued (update_self s.wires.channels loc _)
          ∙ flume.queued-drain (s.wires.channels loc)) in
        record {
          own = v.own;
          fits = v.fits;
          covered = omega (arith, v.covered, queue, ap owing here);
          exact = λ live. cc;
        }

    pub closes-Inv :
        (s : State M)
        → s.receiver ≡ drained
        → Inv loc capacity cell s
        → Inv loc capacity cell (record s {
          wires = record s.wires {
            channels = update s.wires.channels loc (flume.close (s.wires.channels loc));
          };
          receiver = closed;
        })
    closes-Inv s here v =
        let queue = ap messages (
          ap flume.queued (update_self s.wires.channels loc _)
          ∙ flume.queued-close (s.wires.channels loc)) in
        record {
          own = v.own;
          fits = v.fits;
          covered = omega (arith, v.covered, queue, ap owing here);
          exact = λ live. cc;
        }
