-- ===== src/Backoff/Delay.antt =====
-- waltz/src/backoff.rs: how `Backoff::duration` grows.
use Prim.Native.Nat.{min as lesser}
use native.Mathlib.Nat.{pow-le-pow_right, one-le-pow, mul-le-mul_left, mod-eq_of_lt}
use waltz.Base.{ℕ, zero, suc, ◌*◌, ◌^◌, ◌≤◌, ◌<◌, ◌≡◌, ◌↔◌, arith, dec_lt, lt→ltb}
use waltz.Base.Duration.{Duration, duration_max, saturating_mul}
use waltz.Backoff.{Backoff, IsValid, factor, checked_shl_one, u32_max, duration}

pow_below : (step : ℕ) → step < 32 → 2 ^ step < 2 ^ 32
pow_below step h =
    let p : 2 ^ step ≤ 2 ^ 31 = pow-le-pow_right (omega arith) {j = 31} (omega arith) in omega arith

pub factor-eq-pow : (step : ℕ) → step < 32 → factor step ≡ 2 ^ step
unfolding factor
factor-eq-pow step h =
    rw (lt→ltb step 32 h, factor, checked_shl_one) (mod-eq_of_lt (pow_below step h))

pub factor_wide : (step : ℕ) → 32 ≤ step → factor step ≡ u32_max
unfolding factor
factor_wide step h = ground arith

pub factor-pos : (step : ℕ) → 1 ≤ factor step
factor-pos step = elim (dec_lt step 32) [
  | yes h ↦ rw (factor-eq-pow step h) (one-le-pow step 2 (omega arith))
  | no h ↦ rw (factor_wide step (omega arith)) (omega arith)
]

factor-le-u32_max : (step : ℕ) → factor step ≤ u32_max
factor-le-u32_max step = elim (dec_lt step 32) [
  | yes h ↦ rw (factor-eq-pow step h) (omega (arith, pow_below step h))
  | no h ↦ rw (factor_wide step (omega arith)) (omega arith)
]

factor_mono : (i j : ℕ) → i ≤ j → factor i ≤ factor j
factor_mono i j h = elim (dec_lt j 32) [
  | yes below ↦
      rw (factor-eq-pow i (omega arith), factor-eq-pow j below)
        (pow-le-pow_right (omega arith) {j = j} h)
  | no wide ↦ rw (factor_wide j (omega arith)) (factor-le-u32_max i)
]

-- A cap that is a `Duration` absorbs the saturation of the product.
duration_lem :
    (b : Backoff) (step : ℕ)
    → b.max ≤ duration_max
    → duration b step ≡ lesser (b.min * factor step) b.max
unfolding duration saturating_mul
duration_lem b step h = ground arith

-- The delay of a step never undercuts `min` and never exceeds `max`, whatever the step.
pub duration_bounds :
    (b : Backoff) (step : ℕ)
    → IsValid b
    → b.max ≤ duration_max
    → (b.min ≤ duration b step) × (duration b step ≤ b.max)
duration_bounds b step v h = rw (duration_lem b step h) (
    let p : b.min * 1 ≤ b.min * factor step = mul-le-mul_left b.min (factor-pos step) in
    omega arith)

-- Later steps never wait less.
duration_mono : (b : Backoff) (i j : ℕ) → b.max ≤ duration_max → i ≤ j → duration b i ≤ duration b j
duration_mono b i j h le =
    rw (duration_lem b i h, duration_lem b j h)
      (let p : b.min * factor i ≤ b.min * factor j = mul-le-mul_left b.min (factor_mono i j le) in
        omega arith)

-- What the documentation promises of step n: `min` doubled n times, capped at `max`.
abbrev pub documented : Backoff → ℕ → Duration
documented b step = lesser (b.min * 2 ^ step) b.max

-- Below step 32 the delay is `min` doubled once a step, capped at `max`.
pub duration-eq-documented :
    (b : Backoff) (step : ℕ)
    → b.max ≤ duration_max
    → step < 32
    → duration b step ≡ documented b step
duration-eq-documented b step h below = rw (duration_lem b step h, factor-eq-pow step below)

min-pos : (m p cap : ℕ) → lesser (m * u32_max) cap < lesser (m * p) cap → 0 < m
min-pos zero p cap h = absurd (omega (arith, h))
min-pos (suc m) p cap h = omega arith

-- From step 32 on the delay falls short of the documented one exactly if `min` is not zero and
-- `min * u32::MAX` stays below the cap: the factor stops at `u32::MAX`.
pub duration-lt-documented_iff :
    (b : Backoff) (step : ℕ)
    → b.max ≤ duration_max
    → 32 ≤ step
    → (duration b step < documented b step) ↔ ((0 < b.min) × (b.min * u32_max < b.max))
duration-lt-documented_iff b step h wide =
    rw (duration_lem b step h, factor_wide step wide)
      (
        λ lt. (min-pos b.min (2 ^ step) b.max lt, omega arith),
        λ (pos, room). let p = mul-le-mul_left b.min power in omega arith,
      )
  where
    power : 2 ^ 32 ≤ 2 ^ step
    power = pow-le-pow_right (omega arith) {j = step} wide

-- The first delay is `min`.
pub duration-zero : (b : Backoff) → b.min ≤ b.max → b.max ≤ duration_max → duration b 0 ≡ b.min
duration-zero b ordered h = rw (duration_lem b 0 h, factor-eq-pow 0 (omega arith)) (omega arith)
