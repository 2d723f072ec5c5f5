-- ===== src/Config.antt =====
-- waltz/src/actor_config.rs: the configuration of an actor. `NonZeroU32` and `NonZeroUsize` are
-- numbers, and `IsValid` holds their ranges; the defaults of the `Default` impls are constants.
use waltz.Base.{ℕ, ◌^◌, ◌<◌, ◌≤◌, Option}
use waltz.Base.Duration.{Duration, from_secs, duration_max}
use waltz.Backoff.{Backoff}
use waltz.Backoff
use mathlib.Core.Option

pub data MailboxCapacity : Type 0 where
  unbounded : MailboxCapacity
  bounded : ℕ → MailboxCapacity

pub record RestartPolicy : Type 0 where
  pub max_restarts : ℕ
  pub backoff : Backoff
  pub reset_after : Duration

pub data SupervisionStrategy : Type 0 where
  stop : SupervisionStrategy
  restart : RestartPolicy → SupervisionStrategy

pub record ActorConfig : Type 0 where
  pub mailbox_capacity : MailboxCapacity
  pub supervision_strategy : SupervisionStrategy

-- `ActorConfig::default()`.
abbrev pub default : ActorConfig
default = record { mailbox_capacity = unbounded; supervision_strategy = stop }

unfoldable pub with_mailbox_capacity : ActorConfig → MailboxCapacity → ActorConfig
with_mailbox_capacity config capacity = record config { mailbox_capacity = capacity }

unfoldable pub with_supervision_strategy : ActorConfig → SupervisionStrategy → ActorConfig
with_supervision_strategy config strategy = record config { supervision_strategy = strategy }

abbrev pub default_reset_after : Duration
default_reset_after = from_secs 30

-- `RestartPolicy::new`; `none` is the panic of `Backoff::default()`.
unfoldable pub new : ℕ → Option RestartPolicy
new max_restarts =
    Option.map
      (λ backoff. record {
        max_restarts = max_restarts;
        backoff = backoff;
        reset_after = default_reset_after;
      })
      Backoff.default

unfoldable pub with_backoff : RestartPolicy → Backoff → RestartPolicy
with_backoff policy backoff = record policy { backoff = backoff }

unfoldable pub with_reset_after : RestartPolicy → Duration → RestartPolicy
with_reset_after policy reset_after = record policy { reset_after = reset_after }

-- The ranges of the fields' Rust types, and the order that `Backoff::new` ensures.
pub record IsValid (p : RestartPolicy) : Type 0 where
  pub positive : 0 < p.max_restarts
  pub u32_limit : p.max_restarts < 2 ^ 32
  pub ordered : p.backoff.min ≤ p.backoff.max
  pub duration_cap : p.backoff.max ≤ duration_max
