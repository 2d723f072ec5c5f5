-- ===== src/Backoff.antt =====
-- waltz/src/backoff.rs: the bounds of an exponential backoff and the delay of a step.
-- A `Duration` is its number of nanoseconds; `u32` values are numbers below 2 ^ 32.
pub mod Delay
use waltz.Base.{ℕ, ◌%◌, ◌^◌, ◌≤◌, Option, none, some, Result, ok, err, ltb, if◌then◌else◌}
use waltz.Base.Duration.{Duration, from_millis, from_secs, saturating_mul}
use Prim.Native.Nat.{min as lesser}

pub record Backoff : Type 0 where
  pub min : Duration
  pub max : Duration

-- The bounds given to `new` contradict each other.
pub record InvalidBackoff : Type 0 where
  pub min : Duration
  pub max : Duration

abbrev pub default_min : Duration
default_min = from_millis 250

abbrev pub default_max : Duration
default_max = from_secs 4

unfoldable pub new : Duration → Duration → Result Backoff InvalidBackoff
new lo hi =
    if ltb hi lo then err (record { min = lo; max = hi }) else ok (record { min = lo; max = hi })

-- `new(DEFAULT_MIN, DEFAULT_MAX).expect(..)`: `none` is the panic.
unfoldable pub default : Option Backoff
unfolding new
default = elim (new default_min default_max) [ ok b ↦ some b | err e ↦ none ]

abbrev pub u32_max : ℕ
u32_max = 4_294_967_295

-- `1u32.checked_shl(step)`.
unfoldable pub checked_shl_one : ℕ → Option ℕ
checked_shl_one step = if ltb step 32 then some (2 ^ step % 2 ^ 32) else none

-- `.unwrap_or(u32::MAX)`.
unfoldable pub factor : ℕ → ℕ
unfolding checked_shl_one
factor step = elim (checked_shl_one step) [ none ↦ u32_max | some f ↦ f ]

unfoldable pub duration : Backoff → ℕ → Duration
duration b step = lesser (saturating_mul b.min (factor step)) b.max

-- What the deserializer reads before the bounds are checked.
pub record UncheckedBackoff : Type 0 where
  pub min : Duration
  pub max : Duration

unfoldable pub try_from : UncheckedBackoff → Result Backoff InvalidBackoff
unfolding new
try_from unchecked = new unchecked.min unchecked.max

-- No value that `new` returns breaks this.
pub record IsValid (b : Backoff) : Type 0 where
  pub ordered : b.min ≤ b.max
