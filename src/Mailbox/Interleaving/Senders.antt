-- ===== src/Mailbox/Interleaving/Senders.antt =====
-- The steps of the threads that send keep the count of a bounded mailbox right.
use waltz.Base.{
  ℕ, ◌+◌, ◌<◌, ◌≡◌, refl, ap, ◌∙◌, inl, inr, true, false, List, [], ◌∷◌, ◌++◌, ok, err, Bool-cases,
  arith,
}
use waltz.Base.Cells.{update, update_self}
use waltz.Extern.Flume.{Flume}
use waltz.Quota.{usize_mod, Reservation, reserve, commit, drop}
use waltz.Quota.Sender.{send_at, try_send_uncounted}
use waltz.Quota.Reserving.{reserve_lem}
use waltz.Quota.Laws.{queued-sent}
use waltz.Actor.{ActorId, Incoming, message, terminated, messages, messages-append}
use waltz.Mailbox.Interleaving.{Sending, idle, reserved, failed, State, the_quota, the_sender}
use waltz.Mailbox.Interleaving.Count.{Inv, drop_own, IsOwn-parts, IsOwn-replaced, holding_replaced}

module _ {M : Type 0} ⦃flume : Flume (Incoming M)⦄ (loc capacity cell : ℕ) where
  module _ (small : capacity < usize_mod) where
    pub reserves-Inv :
        (s : State M) (xs ys : List (Sending M)) (m : M) (r : Reservation)
        → s.senders ≡ xs ++ idle ∷ ys
        → (reserve (the_quota capacity cell) s.wires.counts).0 ≡ ok r
        → Inv loc capacity cell s
        → Inv loc capacity cell (record s {
          wires = record s.wires { counts = (reserve (the_quota capacity cell) s.wires.counts).1 };
          senders = xs ++ reserved (message m) r ∷ ys;
        })
    reserves-Inv s xs ys m r at granted v =
        elim (reserve_lem (the_quota capacity cell) s.wires.counts cell small) [
          | inl (room, result, count) ↦
              let sum =
                holding_replaced loc capacity cell xs ys idle (reserved (message m) r) s at in
              let count' : (reserve (the_quota capacity cell) s.wires.counts).1 cell
                  ≡ s.wires.counts cell + 1 =
                ground (arith, count) in
              let below : s.wires.counts cell < capacity = ground (arith, room) in
              record {
                own =
                    IsOwn-replaced loc capacity cell xs ys idle (reserved (message m) r) s at v.own
                      (ground (arith, result, granted), refl);
                fits = omega arith;
                covered = omega (arith, v.covered);
                exact = λ live. omega (arith, v.exact live);
              }
          | inr (no_room, result, count) ↦ absurd (ground (arith, result, granted))
        ]

    pub sends-Inv :
        (s : State M) (xs ys : List (Sending M)) (item : Incoming M) (r : Reservation)
        → s.senders ≡ xs ++ reserved item r ∷ ys
        → (send_at loc item s.wires).0 ≡ ok tt
        → Inv loc capacity cell s
        → Inv loc capacity cell (record s {
          wires = record {
            counts = drop (commit r) (send_at loc item s.wires).1.counts;
            channels = (send_at loc item s.wires).1.channels;
          };
          senders = xs ++ idle ∷ ys;
        })
    unfolding send_at drop commit
    sends-Inv s xs ys item r at sent v =
        let (mine, counted) =
          (IsOwn-parts loc capacity cell xs ys (reserved item r) idle s at v.own).1 in
        let sum = holding_replaced loc capacity cell xs ys (reserved item r) idle s at in
        let connected : flume.disconnected (s.wires.channels loc) ≡ false =
          ground (arith, flume.send_result item (s.wires.channels loc)) in
        let queue =
          ap messages (queued-sent loc item s.wires.channels connected)
          ∙ messages-append (flume.queued (s.wires.channels loc)) (item ∷ []) in
        record {
          own = IsOwn-replaced loc capacity cell xs ys (reserved item r) idle s at v.own tt;
          fits = v.fits;
          covered = omega (arith, v.covered, queue, counted, sum);
          exact = λ live. omega (arith, v.exact live, queue, counted, sum);
        }

    pub fails-Inv :
        (s : State M) (xs ys : List (Sending M)) (item : Incoming M) (r : Reservation)
        → s.senders ≡ xs ++ reserved item r ∷ ys
        → (send_at loc item s.wires).0 ≡ err item
        → Inv loc capacity cell s
        → Inv loc capacity cell
            (record s { wires = (send_at loc item s.wires).1; senders = xs ++ failed r ∷ ys })
    unfolding send_at
    fails-Inv s xs ys item r at lost v =
        let (mine, counted) =
          (IsOwn-parts loc capacity cell xs ys (reserved item r) (failed r) s at v.own).1 in
        let sum = holding_replaced loc capacity cell xs ys (reserved item r) (failed r) s at in
        let gone : flume.disconnected (s.wires.channels loc) ≡ true =
          ground (arith, flume.send_result item (s.wires.channels loc)) in
        let queue = ap messages (
          ap flume.queued (update_self s.wires.channels loc _)
          ∙ flume.queued-send_failed item (s.wires.channels loc) gone) in
        record {
          own = IsOwn-replaced loc capacity cell xs ys (reserved item r) (failed r) s at v.own mine;
          fits = v.fits;
          covered = omega (arith, v.covered, queue, sum);
          exact = λ live. omega (arith, v.exact live, queue, sum);
        }

    pub releases-Inv :
        (s : State M) (xs ys : List (Sending M)) (r : Reservation)
        → s.senders ≡ xs ++ failed r ∷ ys
        → Inv loc capacity cell s
        → Inv loc capacity cell (record s {
          wires = record s.wires { counts = drop r s.wires.counts };
          senders = xs ++ idle ∷ ys;
        })
    releases-Inv s xs ys r at v =
        let mine = (IsOwn-parts loc capacity cell xs ys (failed r) idle s at v.own).1 in
        let sum = holding_replaced loc capacity cell xs ys (failed r) idle s at in
        let count =
          drop_own capacity cell r s.wires.counts mine (omega (arith, v.covered, sum))
            (omega (arith, v.fits)) in
        record {
          own = IsOwn-replaced loc capacity cell xs ys (failed r) idle s at v.own tt;
          fits = omega (arith, v.fits, count);
          covered = omega (arith, v.covered, count, sum);
          exact = λ live. omega (arith, v.exact live, count, sum);
        }

    signaled :
        (id : ActorId) (s : State M)
        → messages (
            flume.queued (
              update s.wires.channels loc
                (flume.send (terminated id) (s.wires.channels loc)).1
                loc))
          ≡ messages (flume.queued (s.wires.channels loc))
    signaled id s = elim (Bool-cases (flume.disconnected (s.wires.channels loc))) [
      | inl gone ↦ ap messages (
          ap flume.queued (update_self s.wires.channels loc _)
          ∙ flume.queued-send_failed (terminated id) _ gone)
      | inr here ↦
          ap (messages {M = M}) (queued-sent loc (terminated id) s.wires.channels here)
          ∙ messages-append (flume.queued (s.wires.channels loc)) (terminated id ∷ [])
          ∙ omega arith
    ]

    pub signals-Inv :
        (s : State M) (id : ActorId)
        → Inv loc capacity cell s
        → Inv loc capacity cell (record s {
          wires = (try_send_uncounted (the_sender loc capacity cell) (terminated id) s.wires).1;
        })
    unfolding try_send_uncounted send_at
    signals-Inv s id v =
        let queue : messages (
              flume.queued (
                update s.wires.channels loc (flume.send (terminated id) (s.wires.channels loc)).1
                  loc))
            ≡ messages (flume.queued (s.wires.channels loc)) =
          signaled id s in
        record {
          own = v.own;
          fits = v.fits;
          covered = omega (arith, v.covered, queue);
          exact = λ live. omega (arith, v.exact live, queue);
        }
