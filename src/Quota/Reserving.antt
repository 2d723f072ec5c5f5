-- ===== src/Quota/Reserving.antt =====
-- waltz/src/quota.rs: what a single caller sees of `Quota`.
use Prim.Native.Nat.{min}
use waltz.Base.{
  ℕ, zero, suc, ◌+◌, ◌-◌, ◌≤◌, ◌<◌, ◌≡◌, refl, ◌⊎◌, inl, Bool, true, false, some, Result, ok, err,
  ltb, ◌==◌, if◌then◌else◌, arith,
}
use waltz.Quota.{
  Counts, usize_mod, Repr, unbounded, bounded, Quota, Full, Reservation, reserve, reserve_at,
  unreserve_at, drop,
}

-- A bounded quota's capacity is a `usize`.
abbrev pub FitsUsize : Repr → Type 0
FitsUsize unbounded = Unit
FitsUsize (bounded capacity cell) = capacity < usize_mod

-- Whether a reservation would be granted.
abbrev pub admits : Repr → Counts → Bool
admits unbounded counts = true
admits (bounded capacity cell) counts = ltb (counts cell) capacity

-- The cell that a quota counts in, if it counts.
abbrev pub adds : Repr → ℕ → Counts → ℕ → ℕ
adds unbounded n counts j = counts j
adds (bounded capacity cell) n counts j = if cell == j then counts j + n else counts j

pub reserve_lem :
    (q : Quota) (counts : Counts) (j : ℕ)
    → FitsUsize q.repr
    → ((admits q.repr counts ≡ true)
        × ((reserve q counts).0 ≡ ok (record { held = some q }))
        × ((reserve q counts).1 j ≡ adds q.repr 1 counts j))
      ⊎ ((admits q.repr counts ≡ false)
          × ((reserve q counts).0 ≡ err Full.full)
          × ((reserve q counts).1 j ≡ counts j))
unfolding reserve
reserve_lem q counts j fits = at q.repr fits
  where
    at :
        (r : Repr)
        → FitsUsize r
        → ((admits r counts ≡ true)
            × ((reserve_at q r counts).0 ≡ ok (record { held = some q }))
            × ((reserve_at q r counts).1 j ≡ adds r 1 counts j))
          ⊎ ((admits r counts ≡ false)
              × ((reserve_at q r counts).0 ≡ err Full.full)
              × ((reserve_at q r counts).1 j ≡ counts j))
    at unbounded fits = inl (refl, refl, refl)
    at (bounded capacity cell) fits = ground arith

-- A reservation that is dropped gives back what it took.
pub drop-reserve :
    (q : Quota) (counts : Counts) (j : ℕ)
    → FitsUsize q.repr
    → admits q.repr counts ≡ true
    → drop (record { held = some q }) (reserve q counts).1 j ≡ counts j
unfolding drop reserve
drop-reserve q counts j fits grants = at q.repr fits grants
  where
    at :
        (r : Repr)
        → FitsUsize r
        → admits r counts ≡ true
        → unreserve_at r (reserve_at q r counts).1 j ≡ counts j
    at unbounded fits grants = refl
    at (bounded capacity cell) fits grants = ground arith

-- `n` attempts to reserve in a row, with how many of them were granted; none is committed.
abbrev granted : Result Reservation Full → ℕ
granted (ok r) = 1
granted (err e) = 0

reserve_times : ℕ → Quota → Counts → ℕ × Counts
reserve_times zero q counts = (0, counts)
reserve_times (suc n) q counts =
    let (result, counts') = reserve q counts in
    let (more, counts'') = reserve_times n q counts' in (granted result + more, counts'')

-- A bounded quota grants exactly as many reservations as its capacity has room for: of `n` attempts
-- the first `capacity - count` are granted, and the count goes up by as many.
reserve_times_granted :
    (n capacity cell : ℕ) (counts : Counts)
    → capacity < usize_mod
    → counts cell ≤ capacity
    → let (k, counts') = reserve_times n (record { repr = bounded capacity cell }) counts in
      (k ≡ min n (capacity - counts cell)) × (counts' cell ≡ counts cell + k)
unfolding reserve_times
reserve_times_granted zero capacity cell counts fits le = (omega arith, omega arith)
reserve_times_granted (suc n) capacity cell counts fits le =
    let q : Quota = record { repr = bounded capacity cell } in
    ground (
      arith,
      reserve_lem q counts cell fits,
      reserve_times_granted n capacity cell (reserve q counts).1 fits,
    )
