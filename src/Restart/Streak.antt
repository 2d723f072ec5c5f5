-- ===== src/Restart/Streak.antt =====
-- waltz/src/actor_context.rs: streaks of failures under `next_restart`.
use waltz.Base.{
  ℕ, zero, suc, ◌+◌, ◌-◌, ◌≤◌, ◌<◌, ◌≡◌, refl, ◌⊎◌, inl, inr, true, false, Option, List, [], ◌∷◌,
  ◌++◌, All, length, ap, Bool-cases, dec_lt, replicate, arith,
}
use native.Mathlib.Nat.{add-sub_cancel}
use waltz.Backoff.{duration}
use waltz.Backoff.Delay.{duration-zero}
use waltz.Config.{SupervisionStrategy, restart, RestartPolicy, IsValid}
use waltz.Restart.{Restart, after, limit_exceeded, Instant, ran_long, next_restart, next_restarts}

-- A failure that does not end the streak.
abbrev pub IsShort : RestartPolicy → Option Instant × Instant → Type 0
IsShort policy failure = ran_long policy failure.0 failure.1 ≡ false

-- The delays of the steps from `k` on.
abbrev pub delays : RestartPolicy → ℕ → ℕ → List Restart
delays policy k zero = []
delays policy k (suc n) = after (duration policy.backoff k) ∷ delays policy (k + 1) n

next_restart_short :
    (policy : RestartPolicy) (up_since : Option Instant) (now k : ℕ)
    → IsValid policy
    → IsShort policy (up_since, now)
    → k < policy.max_restarts
    → next_restart (restart policy) up_since now k ≡ (after (duration policy.backoff k), k + 1)
unfolding next_restart
next_restart_short policy up_since now k v short below = ground arith

next_restarts-append :
    (strategy : SupervisionStrategy) (xs ys : List (Option Instant × Instant)) (k : ℕ)
    → next_restarts strategy (xs ++ ys) k ≡ (
      (next_restarts strategy xs k).0
          ++ (next_restarts strategy ys (next_restarts strategy xs k).1).0,
      (next_restarts strategy ys (next_restarts strategy xs k).1).1,
    )
unfolding next_restarts
next_restarts-append strategy [] ys k = refl
next_restarts-append strategy ((up_since, now) ∷ xs) ys k =
    rw (next_restarts-append strategy xs ys (next_restart strategy up_since now k).1)

-- Within a streak the failures are answered by restarts, each delayed by the next step of the
-- backoff, as long as `restarts` has not reached `max_restarts`; each adds one to `restarts`.
next_restarts-delays :
    (policy : RestartPolicy) (failures : List (Option Instant × Instant)) (k : ℕ)
    → IsValid policy
    → All (IsShort policy) failures
    → k + length failures ≤ policy.max_restarts
    → next_restarts (restart policy) failures k
      ≡ (delays policy k (length failures), k + length failures)
unfolding next_restarts
next_restarts-delays policy [] k v short fits = ground arith
next_restarts-delays policy ((up_since, now) ∷ failures) k v short fits =
    rw (next_restart_short policy up_since now k v short.0 (omega arith))
      (ground (arith, next_restarts-delays policy failures (k + 1) v short.1 (omega arith)))

-- One more failure of the streak stops the actor.
pub next_restart_exceeds :
    (policy : RestartPolicy) (up_since : Option Instant) (now k : ℕ)
    → IsShort policy (up_since, now)
    → policy.max_restarts ≤ k
    → next_restart (restart policy) up_since now k ≡ (limit_exceeded, k)
unfolding next_restart
next_restart_exceeds policy up_since now k short exceeds = ground arith

-- A failure after a run of at least `reset_after` ends the streak.
abbrev pub IsLong : RestartPolicy → Option Instant × Instant → Type 0
IsLong policy failure = ran_long policy failure.0 failure.1 ≡ true

next_restart_long :
    (policy : RestartPolicy) (up_since : Option Instant) (now k : ℕ)
    → IsValid policy
    → IsLong policy (up_since, now)
    → next_restart (restart policy) up_since now k ≡ (after (duration policy.backoff 0), 1)
unfolding next_restart
next_restart_long policy up_since now k v long = ground arith

-- `*restarts += 1` never overflows and `max_restarts` bounds the count: a call leaves it at most
-- `max_restarts`, and a restart that is granted is delayed by the step one below the new count,
-- which is at most one above the old.
pub next_restart_bounds :
    (policy : RestartPolicy) (up_since : Option Instant) (now restarts : ℕ)
    → IsValid policy
    → restarts ≤ policy.max_restarts
    → let (decision, restarts') = next_restart (restart policy) up_since now restarts in
      (restarts' ≤ policy.max_restarts)
      × ((decision ≡ limit_exceeded)
          ⊎ ((decision ≡ after (duration policy.backoff (restarts' - 1)))
              × (1 ≤ restarts')
              × (restarts' ≤ restarts + 1)))
next_restart_bounds policy up_since now restarts v le =
    elim (Bool-cases (ran_long policy up_since now)) [
      | inl long ↦
          rw (next_restart_long policy up_since now restarts v long)
            (omega (arith, v.positive), inr (refl, omega arith, omega arith))
      | inr short ↦ elim (dec_lt restarts policy.max_restarts) [
        | yes below ↦
            rw (next_restart_short policy up_since now restarts v short below)
              (omega arith, inr (rw add-sub_cancel, omega arith, omega arith))
        | no over ↦
            rw (next_restart_exceeds policy up_since now restarts short (omega arith))
              (omega arith, inl refl)
      ]
    ]

-- A streak of more than `max_restarts` failures stops the actor, and not before: from a fresh
-- count, `max_restarts` failures are answered by restarts whose delays climb the backoff from its
-- first step, and the next failure by the stop.
pub next_restarts_streak :
    (policy : RestartPolicy) (failures : List (Option Instant × Instant))
    (up_since : Option Instant) (now : Instant)
    → IsValid policy
    → All (IsShort policy) failures
    → IsShort policy (up_since, now)
    → length failures ≡ policy.max_restarts
    → next_restarts (restart policy) (failures ++ (up_since, now) ∷ []) 0
      ≡ (delays policy 0 policy.max_restarts ++ limit_exceeded ∷ [], policy.max_restarts)
unfolding next_restarts
next_restarts_streak policy failures up_since now v short last full =
    rw
      (
        next_restarts-append (restart policy) failures ((up_since, now) ∷ []) 0,
        next_restarts-delays policy failures 0 v short (omega arith),
      )
      (rw
        (
          full,
          next_restart_exceeds policy up_since now (0 + policy.max_restarts) last (omega arith),
        )
        (ground arith))

-- An actor that keeps recovering is restarted for ever: if each of its runs lasted at least
-- `reset_after`, every failure is answered by a restart after `min`, however many there are.
pub next_restarts_recovering :
    (policy : RestartPolicy) (failures : List (Option Instant × Instant)) (k : ℕ)
    → IsValid policy
    → All (IsLong policy) failures
    → (next_restarts (restart policy) failures k).0
      ≡ replicate (length failures) (after policy.backoff.min)
unfolding next_restarts
next_restarts_recovering policy [] k v long = refl
next_restarts_recovering policy ((up_since, now) ∷ failures) k v long =
    rw
      (
        next_restart_long policy up_since now k v long.0,
        duration-zero policy.backoff v.ordered v.duration_cap,
      )
      (ap (◌∷◌ (after policy.backoff.min)) (next_restarts_recovering policy failures 1 v long.1))
