-- ===== src/Restart.antt =====
-- waltz/src/actor_context.rs: `next_restart`, which decides what follows a failure. The clock is an
-- argument: `now` is the instant of the call, in nanoseconds, as `up_since` is.
pub mod Streak
use waltz.Base.{
  ℕ, ◌+◌, ◌-◌, ◌%◌, ◌^◌, Bool, true, false, Option, none, some, List, [], ◌∷◌, leb, if◌then◌else◌,
}
use waltz.Base.Duration.{Duration}
use waltz.Backoff.{duration}
use waltz.Config.{SupervisionStrategy, stop, restart, RestartPolicy}

abbrev pub Instant : Type 0
Instant = ℕ

pub data Restart : Type 0 where
  after : Duration → Restart
  limit_exceeded : Restart
  not_configured : Restart

-- `up_since.is_some_and(|up_since| up_since.elapsed() >= policy.reset_after)`.
abbrev pub ran_long : RestartPolicy → Option Instant → Instant → Bool
ran_long policy none now = false
ran_long policy (some since) now = leb policy.reset_after (now - since)

-- The value of `restarts` once a long run has ended the streak.
abbrev pub reset : RestartPolicy → Option Instant → Instant → ℕ → ℕ
reset policy up_since now restarts = if ran_long policy up_since now then 0 else restarts

-- The result, and the value that `restarts` is left with.
unfoldable pub next_restart : SupervisionStrategy → Option Instant → Instant → ℕ → Restart × ℕ
next_restart stop up_since now restarts = (not_configured, restarts)
next_restart (restart policy) up_since now restarts =
    let restarts' = reset policy up_since now restarts in
    if leb policy.max_restarts restarts'
    then (limit_exceeded, restarts')
    else (after (duration policy.backoff restarts'), (restarts' + 1) % 2 ^ 32)

-- The calls that one actor's task makes, in order: `restarts` is kept from one to the next. A call
-- is given by when the failing state came up, if it did, and by the time of the failure.
unfoldable pub next_restarts :
    SupervisionStrategy → List (Option Instant × Instant) → ℕ → List Restart × ℕ
next_restarts strategy [] restarts = ([], restarts)
next_restarts strategy ((up_since, now) ∷ failures) restarts =
    let (first, restarts') = next_restart strategy up_since now restarts in
    let (rest, restarts'') = next_restarts strategy failures restarts' in (first ∷ rest, restarts'')
