-- ===== src/Examples/ScatterGather.antt =====
-- waltz/examples/scatter_gather.rs: a gatherer scatters shards of a range over workers and adds up
-- their sums. Printing is left out.
pub mod Laws
use waltz.Base.{ℕ, zero, suc, ◌+◌, ◌-◌, ◌^◌, ◌%◌, List, [], ◌∷◌, length, ltb, if◌then◌else◌}
use waltz.Actor.{Incoming, message, terminated, Control, continue, stop}
use waltz.Config
use waltz.Reference.{ActorRef}
use waltz.World.{value, Script, returns, panic, tells, watches, spawns, self_refs, Behaviour}

-- A half-open range of `u64`.
pub record Range : Type 0 where
  pub start : ℕ
  pub end : ℕ

-- The messages of both actors. The `ReplyTo` of `compute` is the actor that it tells, and the
-- conversion that `reply_to` was given.
pub data Message : Type 0 where
  partial : ℕ → Message
  compute : Range → ActorRef → (ℕ → Message) → Message

pub record Gathering : Type 0 where
  pub remaining : ℕ
  pub total : ℕ

abbrev pub shards : List Range
shards =
    record { start = 1; end = 26 }
    ∷ record { start = 26; end = 51 }
    ∷ record { start = 51; end = 76 }
    ∷ record { start = 76; end = 101 }
    ∷ []

-- The loop of `init`: `worker` is the behaviour of a worker.
unfoldable pub scatter : ℕ → List Range → Gathering → Script Message Gathering
scatter worker [] state = returns (value state)
scatter worker (shard ∷ rest) state = spawns worker Config.default (λ r.
    watches r
      (self_refs (λ self. tells r (compute shard self partial) (scatter worker rest state))))

-- What is left of `usize` arithmetic wraps.
unfoldable pub gather : Incoming Message → Gathering → Script Message (Control Gathering)
gather (message (partial sum)) state =
    returns (value (continue (record state { total = (state.total + sum) % 2 ^ 64 })))
gather (message (compute shard r into)) state = returns panic
gather (terminated id) state =
    let remaining = (state.remaining + 2 ^ 64 - 1) % 2 ^ 64 in
    if ltb 0 remaining
    then returns (value (continue (record state { remaining = remaining })))
    else returns (value stop)

unfoldable pub gatherer : ℕ → Behaviour Message Gathering
unfolding scatter gather
gatherer worker = record {
  init = scatter worker shards (record { remaining = length shards; total = 0 });
  receive = gather;
}

-- The sum of `n` numbers from `start` on.
unfoldable pub sum_from : ℕ → ℕ → ℕ
sum_from start zero = 0
sum_from start (suc n) = (start + sum_from (start + 1) n) % 2 ^ 64

unfoldable pub work : Incoming Message → Unit {0} → Script Message (Control (Unit {0}))
unfolding sum_from
work (message (compute shard r into)) state =
    tells r (into (sum_from shard.start (shard.end - shard.start))) (returns (value stop))
work (message (partial sum)) state = returns panic
work (terminated id) state = returns panic

unfoldable pub worker : Behaviour Message (Unit {0})
unfolding work
worker = record { init = returns (value tt); receive = work }
