-- ===== src/Examples/Supervision.antt =====
-- waltz/examples/supervision.rs: an overseer watches a loader that fails at a toxic value. Printing is
-- left out.
pub mod Laws
use waltz.Base.{
  ℕ, ◌+◌, ◌^◌, ◌%◌, List, [], ◌∷◌, ◌==◌, Result, ok, err, Option, none, some, if◌then◌else◌,
}
use mathlib.Core.Option
use waltz.Base.Duration.{from_millis, from_secs}
use waltz.Backoff
use waltz.Backoff.{Backoff}
use waltz.Actor.{Incoming, message, terminated, Control, continue, stop}
use waltz.Config.{ActorConfig, RestartPolicy, restart}
use waltz.Config
use waltz.Reference.{ActorRef}
use waltz.World.{value, error, Script, returns, panic, tells, watches, spawns, Behaviour}

abbrev pub toxic : ℕ
toxic = 13

abbrev pub max_restarts : ℕ
max_restarts = 3

pub data Message : Type 0 where
  load : ℕ → Message
  finish : Message

-- `loader_config` of `main`; the error of `Backoff::new` is that of `main`.
unfoldable pub with_policy : Backoff → RestartPolicy → ActorConfig
with_policy backoff policy =
    Config.with_supervision_strategy Config.default (restart (Config.with_backoff policy backoff))

-- The loop of `init`.
unfoldable pub load_all : ActorRef → List ℕ → Script Message (Unit {0}) → Script Message (Unit {0})
load_all loader [] rest = rest
load_all loader (v ∷ values) rest = tells loader (load v) (load_all loader values rest)

abbrev pub values : List ℕ
values = 1 ∷ 2 ∷ toxic ∷ 3 ∷ toxic ∷ 4 ∷ []

-- `loader` is the behaviour of a loader. Any item stops the overseer.
unfoldable pub overseer : ℕ → ActorConfig → Behaviour Message (Unit {0})
unfolding load_all
overseer loader loader_config = record {
  init =
      spawns loader loader_config
        (λ r. watches r (load_all r values (tells r finish (returns (value tt)))));
  receive = λ incoming state. returns (value stop);
}

-- `count` is a `u64`.
unfoldable pub load_one : Incoming Message → ℕ → Script Message (Control ℕ)
load_one (message (load v)) count =
    if v == toxic then returns error else returns (value (continue ((count + 1) % 2 ^ 64)))
load_one (message finish) count = returns (value stop)
load_one (terminated id) count = returns panic

unfoldable pub loader : Behaviour Message ℕ
unfolding load_one
loader = record { init = returns (value 0); receive = load_one }
