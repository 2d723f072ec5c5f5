-- ===== src/Base/Duration.antt =====
-- `std::time::Duration` as a number of nanoseconds: 64-bit seconds, and nanoseconds below 10^9.
use Prim.Native.Nat.{ℕ, ◌+◌, ◌*◌}
use waltz.Base.Tests.{leb, if◌then◌else◌}

abbrev pub Duration : Type 0
Duration = ℕ

abbrev pub from_millis : ℕ → Duration
from_millis n = n * 1_000_000

abbrev pub from_secs : ℕ → Duration
from_secs n = n * 1_000_000_000

-- `Duration::MAX`.
abbrev pub duration_max : Duration
duration_max = 18_446_744_073_709_551_615 * 1_000_000_000 + 999_999_999

-- `Duration::saturating_mul`.
unfoldable pub saturating_mul : Duration → ℕ → Duration
saturating_mul d factor = if leb (d * factor) duration_max then d * factor else duration_max
