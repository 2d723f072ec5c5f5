-- ===== src/Quota.antt =====
-- waltz/src/quota.rs: the reservation counter in front of a channel. The `Arc<AtomicUsize>` of a
-- bounded quota is a cell of `Counts`: clones of a quota name one cell. Each operation is one
-- atomic access, to the latest count. That `reserve`, with its relaxed ordering, may find a stale count
-- and refuse on it, is a step of its own in Mailbox.Interleaving.
pub mod Sender
pub mod Reserving
pub mod Laws
use waltz.Base.{
  ℕ, ◌+◌, ◌-◌, ◌%◌, ◌^◌, Bool, true, Option, none, some, Result, ok, err, ltb, if◌then◌else◌,
}
use waltz.Base.Cells.{Cells, update}

abbrev pub Counts : Type 0
Counts = Cells ℕ

abbrev pub usize_mod : ℕ
usize_mod = 2 ^ 64

-- The second field of `bounded` is the location of the count.
pub data Repr : Type 0 where
  unbounded : Repr
  bounded : ℕ → ℕ → Repr

pub record Quota : Type 0 where
  pub repr : Repr

-- `Quota::bounded`, with the cell that `Arc::new` returns.
unfoldable pub new_bounded : ℕ → ℕ → Counts → Quota × Counts
new_bounded capacity cell counts =
    (record { repr = Repr.bounded capacity cell }, update counts cell 0)

unfoldable pub new_unbounded : Quota
new_unbounded = record { repr = Repr.unbounded }

pub data Full : Type 0 where
  full : Full

-- Released on drop unless committed.
pub record Reservation : Type 0 where
  pub held : Option Quota

unfoldable pub reserve_at : Quota → Repr → Counts → Result Reservation Full × Counts
reserve_at quota unbounded counts = (ok (record { held = some quota }), counts)
reserve_at quota (bounded capacity cell) counts =
    if ltb (counts cell) capacity
    then (ok (record { held = some quota }), update counts cell ((counts cell + 1) % usize_mod))
    else (err full, counts)

-- `Quota::reserve`.
unfoldable pub reserve : Quota → Counts → Result Reservation Full × Counts
unfolding reserve_at
reserve quota counts = reserve_at quota quota.repr counts

unfoldable pub unreserve_at : Repr → Counts → Counts
unreserve_at unbounded counts = counts
unreserve_at (bounded capacity cell) counts =
    update counts cell ((counts cell + usize_mod - 1) % usize_mod)

-- `Quota::unreserve`: `fetch_sub` wraps.
unfoldable pub unreserve : Quota → Counts → Counts
unfolding unreserve_at
unreserve quota counts = unreserve_at quota.repr counts

abbrev pub asserts_at : Repr → Counts → Bool
asserts_at unbounded counts = true
asserts_at (bounded capacity cell) counts = ltb 0 (counts cell)

-- What `unreserve` asserts in a debug build: the count it found was not 0.
abbrev pub asserts : Quota → Counts → Bool
asserts quota counts = asserts_at quota.repr counts

-- `Reservation::commit`, up to the drop of what it leaves.
unfoldable pub commit : Reservation → Reservation
commit reservation = record { held = none }

unfoldable pub drop_held : Option Quota → Counts → Counts
drop_held none counts = counts
drop_held (some quota) counts = unreserve quota counts

-- The `Drop` of a reservation.
unfoldable pub drop : Reservation → Counts → Counts
unfolding drop_held unreserve
drop reservation counts = drop_held reservation.held counts
