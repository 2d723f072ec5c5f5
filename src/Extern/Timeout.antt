-- ===== src/Extern/Timeout.antt =====
-- `tokio::time::timeout`: a future polled together with a deadline.
use waltz.Base.{◌≡◌, refl, Bool, true, false, Option, none, some, Result, ok, err}

pub data Elapsed : Type 0 where
  elapsed : Elapsed

-- `poll o late` is one poll of the timeout: `o` is what a poll of its future gives, and `late` tells
-- whether the deadline has passed.
pub record Timeout (A : Type 0) : Type 0 where
  pub poll : Option A → Bool → Option (Result A Elapsed)
  -- The future's value wins.
  pub poll_ready : (a : A) (late : Bool) → poll (some a) late ≡ some (ok a)
  pub poll_late : poll none true ≡ some (err elapsed)
  pub poll_pending : poll none false ≡ none

abbrev pub plain_poll : {A : Type 0} → Option A → Bool → Option (Result A Elapsed)
plain_poll (some a) late = some (ok a)
plain_poll none true = some (err elapsed)
plain_poll none false = none

-- A timeout that meets the interface.
abbrev pub plain_timeout : (A : Type 0) → Timeout A
plain_timeout A = record {
  poll = plain_poll;
  poll_ready = λ a late. refl;
  poll_late = refl;
  poll_pending = refl;
}
