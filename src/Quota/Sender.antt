-- ===== src/Quota/Sender.antt =====
-- waltz/src/quota.rs: `CountedSender`, a quota in front of a channel's sending half.
use waltz.Base.{ℕ, Result, ok, err, map_err, if◌then◌else◌}
use waltz.Base.Cells.{Cells, update}
use waltz.Extern.Flume.{Flume}
use waltz.Quota.{Counts, Quota, Reservation, Full, reserve, commit, drop}

pub data Disconnected : Type 0 where
  gone : Disconnected

pub data CountedSendError : Type 0 where
  full : Full → CountedSendError
  disconnected : Disconnected → CountedSendError

-- `item_tx` is the location of the channel; a clone of the sender is an equal value.
pub record CountedSender : Type 0 where
  pub item_tx : ℕ
  pub quota : Quota

-- The memory that senders and receivers share.
pub record Wires (T : Type 0) ⦃flume : Flume T⦄ : Type 0 where
  pub counts : Counts
  pub channels : Cells flume.Channel

module _ {T : Type 0} ⦃flume : Flume T⦄ where
  unfoldable pub send_at : ℕ → T → Wires T → Result (Unit {0}) T × Wires T
  send_at loc item w =
      let (result, c) = flume.send item (w.channels loc) in
      (result, record w { channels = update w.channels loc c })

  -- `self.item_tx.send(item).map_err(|_| Disconnected)?; reservation.commit(); Ok(())`: on the
  -- early return the reservation is dropped as it is, otherwise as `commit` leaves it.
  unfoldable pub send_reserved :
      CountedSender → T → Reservation → Wires T → Result (Unit {0}) CountedSendError × Wires T
  unfolding send_at commit drop
  send_reserved sender item reservation w =
      let (result, w') = send_at sender.item_tx item w in
      elim result [
        | ok _ ↦ (ok tt, record w' { counts = drop (commit reservation) w'.counts })
        | err _ ↦ (err (disconnected gone), record w' { counts = drop reservation w'.counts })
      ]

  -- `CountedSender::try_send_counted`.
  unfoldable pub try_send_counted :
      CountedSender → T → Wires T → Result (Unit {0}) CountedSendError × Wires T
  try_send_counted sender item w =
      let (result, counts') = reserve sender.quota w.counts in
      elim result [
        | ok reservation ↦ send_reserved sender item reservation (record w { counts = counts' })
        | err e ↦ (
          if flume.disconnected (w.channels sender.item_tx)
              then err (disconnected gone)
              else err (full e),
          record w { counts = counts' },
        )
      ]

  -- `CountedSender::try_send_uncounted`.
  unfoldable pub try_send_uncounted :
      CountedSender → T → Wires T → Result (Unit {0}) Disconnected × Wires T
  unfolding send_at
  try_send_uncounted sender item w =
      let (result, w') = send_at sender.item_tx item w in (map_err (λ _. gone) result, w')
