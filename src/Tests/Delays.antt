-- ===== src/Tests/Delays.antt =====
-- Tests of waltz/src/backoff.rs, the restarts of waltz/src/actor_context.rs and waltz/src/quota.rs.
use waltz.Base.{
  ℕ, ◌+◌, ◌*◌, ◌<◌, ◌≤◌, ◌≡◌, refl, ◌⊎◌, ◌↔◌, true, false, none, some, [], ◌∷◌, ok, err, arith, ◌-◌,
}
use waltz.Base.Duration.{from_millis, from_secs}
use waltz.Backoff.{Backoff, InvalidBackoff, duration, factor, u32_max}
use waltz.Backoff
use waltz.Backoff.Delay.{
  duration_bounds, duration-eq-documented, duration-lt-documented_iff, documented,
}
use waltz.Config.{RestartPolicy, restart, IsValid}
use waltz.Restart.{after, limit_exceeded, next_restart, next_restarts}
use waltz.Restart.Streak.{next_restart_bounds, next_restarts_streak, next_restarts_recovering}
use waltz.Tests.Instances.{number_flume}
use waltz.Quota.{Counts, Repr, Full}
use waltz.Quota.Sender.{CountedSender, full, disconnected, gone, Wires, try_send_counted}
use waltz.Quota.Reserving.{admits}
use waltz.Quota.Laws.{is_gone, waiting, try_send_counted_lem}

-- 100 ms to 30 s, as by default.
abbrev usual : Backoff
usual = record { min = from_millis 100; max = from_secs 30 }

usual-IsValid : Backoff.IsValid usual
usual-IsValid = omega arith

duration_bounds_example : (from_millis 100 ≤ duration usual 4) × (duration usual 4 ≤ from_secs 30)
duration_bounds_example = duration_bounds usual 4 usual-IsValid (omega arith)

duration-eq-documented_example : duration usual 4 ≡ documented usual 4
duration-eq-documented_example = duration-eq-documented usual 4 (omega arith) (omega arith)

-- A wide backoff, from 1 ns to 100 s.
abbrev wide : Backoff
wide = record { min = 1; max = from_secs 100 }

duration-lt-documented_iff_example :
    (duration wide 40 < documented wide 40) ↔ ((0 < 1) × (1 * u32_max < from_secs 100))
duration-lt-documented_iff_example = duration-lt-documented_iff wide 40 (omega arith) (omega arith)

-- Two restarts, and a minute to end the streak.
abbrev twice : RestartPolicy
twice = record { max_restarts = 2; backoff = usual; reset_after = from_secs 60 }

twice-IsValid : IsValid twice
twice-IsValid = record {
  positive = omega arith;
  u32_limit = omega arith;
  ordered = omega arith;
  duration_cap = omega arith;
}

next_restart_bounds_example :
    let (decision, restarts) = next_restart (restart twice) none 0 1 in
    (restarts ≤ 2)
    × ((decision ≡ limit_exceeded)
        ⊎ ((decision ≡ after (duration usual (restarts - 1)))
            × (1 ≤ restarts)
            × (restarts ≤ 1 + 1)))
next_restart_bounds_example = next_restart_bounds twice none 0 1 twice-IsValid (omega arith)

next_restarts_streak_example :
    next_restarts (restart twice) ((none, 0) ∷ (some 5, 7) ∷ (none, 9) ∷ []) 0
    ≡ (after (duration usual 0) ∷ after (duration usual 1) ∷ limit_exceeded ∷ [], 2)
next_restarts_streak_example =
    next_restarts_streak twice ((none, 0) ∷ (some 5, 7) ∷ []) none 9 twice-IsValid
      (refl, (refl, tt)) refl refl

next_restarts_recovering_example :
    (next_restarts (restart twice) ((some 0, from_secs 61) ∷ (some 0, from_secs 200) ∷ []) 2).0
    ≡ after (from_millis 100) ∷ after (from_millis 100) ∷ []
next_restarts_recovering_example =
    next_restarts_recovering twice ((some 0, from_secs 61) ∷ (some 0, from_secs 200) ∷ []) 2
      twice-IsValid (refl, (refl, tt))

-- A quota of 3 of which one is taken.
abbrev one_taken : Counts
one_taken cell = 1

-- Channels that hold one item each.
abbrev wires : Wires ℕ
wires = record { counts = one_taken; channels = λ loc. record { items = 7 ∷ []; closed = false } }

abbrev sender : CountedSender
sender = record { item_tx = 0; quota = record { repr = Repr.bounded 3 0 } }

try_send_counted_lem_example :
    let (result, w') = try_send_counted sender 8 wires in
    ((is_gone sender wires ≡ true)
      × (result ≡ err (disconnected gone))
      × (w'.counts 0 ≡ 1)
      × (waiting sender w' ≡ waiting sender wires)
      × (is_gone sender w' ≡ true))
    ⊎ ((is_gone sender wires ≡ false)
        × (admits sender.quota.repr one_taken ≡ true)
        × (result ≡ ok tt)
        × (w'.counts 0 ≡ 2)
        × (waiting sender w' ≡ 7 ∷ 8 ∷ [])
        × (is_gone sender w' ≡ false))
    ⊎ ((is_gone sender wires ≡ false)
        × (admits sender.quota.repr one_taken ≡ false)
        × (result ≡ err (full Full.full))
        × (w'.counts 0 ≡ 1)
        × (w'.channels ≡ wires.channels))
try_send_counted_lem_example = try_send_counted_lem sender 8 wires 0 (omega arith)
