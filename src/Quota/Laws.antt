-- ===== src/Quota/Laws.antt =====
-- waltz/src/quota.rs: what a single caller sees of `CountedSender`.
use waltz.Base.{
  ℕ, ◌≡◌, refl, ◌⊎◌, inl, inr, Bool, true, false, some, List, [], ◌∷◌, ◌++◌, ok, err, Bool-cases,
  ap, ◌∙◌, arith,
}
use waltz.Base.Cells.{Cells, update, update_self}
use waltz.Extern.Flume.{Flume}
use waltz.Quota.{Full, Reservation, reserve, drop}
use waltz.Quota.Sender.{
  CountedSender, full, disconnected, gone, Wires, send_reserved, try_send_counted,
  try_send_uncounted,
}
use waltz.Quota.Reserving.{FitsUsize, admits, adds, reserve_lem, drop-reserve}

module _ {T : Type 0} ⦃flume : Flume T⦄ where
  open flume use {queued-send, queued-send_failed, disconnected-send}

  pub disconnected-sent :
      (loc : ℕ) (item : T) (channels : Cells flume.Channel)
      → flume.disconnected (update channels loc (flume.send item (channels loc)).1 loc)
        ≡ flume.disconnected (channels loc)
  disconnected-sent loc item channels =
      ap flume.disconnected (update_self channels loc _) ∙ disconnected-send item (channels loc)

  pub queued-sent :
      (loc : ℕ) (item : T) (channels : Cells flume.Channel)
      → flume.disconnected (channels loc) ≡ false
      → flume.queued (update channels loc (flume.send item (channels loc)).1 loc)
        ≡ flume.queued (channels loc) ++ item ∷ []
  queued-sent loc item channels here =
      ap flume.queued (update_self channels loc _) ∙ queued-send item (channels loc) here

  pub queued-unsent :
      (loc : ℕ) (item : T) (channels : Cells flume.Channel)
      → flume.disconnected (channels loc) ≡ true
      → flume.queued (update channels loc (flume.send item (channels loc)).1 loc)
        ≡ flume.queued (channels loc)
  queued-unsent loc item channels lost =
      ap flume.queued (update_self channels loc _) ∙ queued-send_failed item (channels loc) lost

  -- What waits in the channel of a sender.
  abbrev pub waiting : CountedSender → Wires T → List T
  waiting s w = flume.queued (w.channels s.item_tx)

  abbrev pub is_gone : CountedSender → Wires T → Bool
  is_gone s w = flume.disconnected (w.channels s.item_tx)

  send_reserved_ok :
      (s : CountedSender) (item : T) (r : Reservation) (w : Wires T)
      → is_gone s w ≡ false
      → send_reserved s item r w ≡ (
        ok tt,
        record w {
          channels = update w.channels s.item_tx (flume.send item (w.channels s.item_tx)).1;
        },
      )
  unfolding send_reserved
  send_reserved_ok s item r w here =
      rw (flume.send_result item (w.channels s.item_tx), send_reserved) (rw here)

  send_reserved_gone :
      (s : CountedSender) (item : T) (r : Reservation) (w : Wires T)
      → is_gone s w ≡ true
      → send_reserved s item r w ≡ (
        err (disconnected gone),
        record {
          counts = drop r w.counts;
          channels = update w.channels s.item_tx (flume.send item (w.channels s.item_tx)).1;
        },
      )
  unfolding send_reserved
  send_reserved_gone s item r w here = ground (arith, flume.send_result item (w.channels s.item_tx))

  -- A counted send, on every branch. To a receiver that is gone it fails as disconnected, full or
  -- not, and every count is as before. To a receiver that is there it enqueues the item behind all
  -- others and counts it if the quota admits it, and otherwise fails as full and changes nothing.
  -- `j` is any cell.
  pub try_send_counted_lem :
      (s : CountedSender) (item : T) (w : Wires T) (j : ℕ)
      → FitsUsize s.quota.repr
      → let (result, w') = try_send_counted s item w in
        ((is_gone s w ≡ true)
          × (result ≡ err (disconnected gone))
          × (w'.counts j ≡ w.counts j)
          × (waiting s w' ≡ waiting s w)
          × (is_gone s w' ≡ true))
        ⊎ ((is_gone s w ≡ false)
            × (admits s.quota.repr w.counts ≡ true)
            × (result ≡ ok tt)
            × (w'.counts j ≡ adds s.quota.repr 1 w.counts j)
            × (waiting s w' ≡ waiting s w ++ item ∷ [])
            × (is_gone s w' ≡ false))
        ⊎ ((is_gone s w ≡ false)
            × (admits s.quota.repr w.counts ≡ false)
            × (result ≡ err (full Full.full))
            × (w'.counts j ≡ w.counts j)
            × (w'.channels ≡ w.channels))
  unfolding try_send_counted
  try_send_counted_lem s item w j fits =
      let taken : Wires T = record w { counts = (reserve s.quota w.counts).1 } in
      elim (reserve_lem s.quota w.counts j fits) [
        | inl (grants, e, c) ↦ elim (Bool-cases (is_gone s w)) [
          | inl lost ↦
              rw (e, try_send_counted)
                (rw (send_reserved_gone s item (record { held = some s.quota }) taken lost) (
                  inl (
                    lost,
                    refl,
                    drop-reserve s.quota w.counts j fits grants,
                    queued-unsent s.item_tx item w.channels lost,
                    disconnected-sent s.item_tx item w.channels ∙ lost,
                  )))
          | inr here ↦
              rw (e, try_send_counted)
                (rw (send_reserved_ok s item (record { held = some s.quota }) taken here) (
                  inr (
                    inl (
                      here,
                      grants,
                      refl,
                      c,
                      queued-sent s.item_tx item w.channels here,
                      disconnected-sent s.item_tx item w.channels ∙ here,
                    ))))
        ]
        | inr (refuses, e, c) ↦ elim (Bool-cases (is_gone s w)) [
          | inl lost ↦ rw (e, try_send_counted) (rw lost (inl (refl, refl, c, refl, refl)))
          | inr here ↦ rw (e, try_send_counted) (rw here (inr (inr (refl, refuses, refl, c, refl))))
        ]
      ]

  -- An uncounted send ignores the quota: it enqueues the item behind all others unless the receiver
  -- is gone, on which alone it fails, and touches no count.
  pub try_send_uncounted_lem :
      (s : CountedSender) (item : T) (w : Wires T)
      → let (result, w') = try_send_uncounted s item w in
        (w'.counts ≡ w.counts)
        × (((is_gone s w ≡ true)
              × (result ≡ err gone)
              × (waiting s w' ≡ waiting s w)
              × (is_gone s w' ≡ true))
            ⊎ ((is_gone s w ≡ false)
                × (result ≡ ok tt)
                × (waiting s w' ≡ waiting s w ++ item ∷ [])
                × (is_gone s w' ≡ false)))
  unfolding try_send_uncounted
  try_send_uncounted_lem s item w = elim (Bool-cases (is_gone s w)) [
    | inl lost ↦ (
      refl,
      inl (
        lost,
        rw (flume.send_result item (w.channels s.item_tx), lost) refl,
        queued-unsent s.item_tx item w.channels lost,
        disconnected-sent s.item_tx item w.channels ∙ lost,
      ),
    )
    | inr here ↦ (
      refl,
      inr (
        here,
        rw (flume.send_result item (w.channels s.item_tx), here) refl,
        queued-sent s.item_tx item w.channels here,
        disconnected-sent s.item_tx item w.channels ∙ here,
      ),
    )
  ]
