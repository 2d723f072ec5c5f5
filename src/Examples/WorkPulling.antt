-- ===== src/Examples/WorkPulling.antt =====
-- waltz/examples/work_pulling.rs: workers pull documents from a manager one at a time. Printing and the
-- count of words that is printed are left out; documents are of a type `D`.
pub mod Laws
use waltz.Base.{
  ℕ, zero, suc, ◌+◌, ◌-◌, ◌^◌, ◌%◌, Option, none, some, List, [], ◌∷◌, ltb, if◌then◌else◌,
}
use waltz.Actor.{Incoming, message, terminated, Control, continue, stop}
use waltz.Config
use waltz.Config.{ActorConfig, bounded}
use waltz.Reference.{ActorRef}
use waltz.World.{value, Script, returns, panic, tells, watches, spawns, self_refs, Behaviour}

pub data Next (D : Type 0) : Type 0 where
  job : D → Next D
  drained : Next D

-- The messages of both actors. The `ReplyTo` of `request_job` is the actor that it tells, and the
-- conversion that `reply_to` was given.
pub data Message (D : Type 0) : Type 0 where
  request_job : ActorRef → (Next D → Message D) → Message D
  next : Next D → Message D

pub record Managing (D : Type 0) : Type 0 where
  pub jobs : List D
  pub workers : ℕ

abbrev pub worker_count : ℕ
worker_count = 3

-- A worker has at most one job in flight.
unfoldable pub worker_config : ActorConfig
worker_config = Config.with_mailbox_capacity Config.default (bounded 1)

-- `Vec::pop`: the last element, and those before it.
unfoldable pub pop : {D : Type 0} → List D → Option (D × List D)
pop [] = none
pop (d ∷ ds) = elim (pop ds) [ none ↦ some (d, []) | some (last, init) ↦ some (last, d ∷ init) ]

module _ {D : Type 0} where
  -- The loop of `init`: `worker` is the behaviour of a worker that is given its manager.
  unfoldable pub hire : (ActorRef → ℕ) → ℕ → Managing D → Script (Message D) (Managing D)
  hire worker zero state = returns (value state)
  hire worker (suc n) state =
      self_refs (λ self. spawns (worker self) worker_config (λ r. watches r (hire worker n state)))

  -- The match on `jobs.pop()`.
  unfoldable pub answer :
      Option (D × List D)
      → ActorRef
      → (Next D → Message D)
      → Managing D
      → Script (Message D) (Control (Managing D))
  answer none r into state =
      tells r (into drained) (returns (value (continue (record state { jobs = [] }))))
  answer (some (document, jobs)) r into state =
      tells r (into (job document)) (returns (value (continue (record state { jobs = jobs }))))

  unfoldable pub manage :
      Incoming (Message D) → Managing D → Script (Message D) (Control (Managing D))
  unfolding answer
  manage (message (request_job r into)) state = answer (pop state.jobs) r into state
  manage (message (next n)) state = returns panic
  manage (terminated id) state =
      let workers = (state.workers + 2 ^ 64 - 1) % 2 ^ 64 in
      if ltb 0 workers
      then returns (value (continue (record state { workers = workers })))
      else returns (value stop)

  unfoldable pub manager : (ActorRef → ℕ) → List D → Behaviour (Message D) (Managing D)
  unfolding hire manage
  manager worker documents = record {
    init = hire worker worker_count (record { jobs = documents; workers = worker_count });
    receive = manage;
  }

  -- `Worker::request_job`: the reply already is the worker's message type.
  unfoldable pub ask_for_job : {A : Type 0} → ActorRef → Script (Message D) A → Script (Message D) A
  ask_for_job boss rest = self_refs (λ self. tells boss (request_job self next) rest)

  unfoldable pub work :
      ActorRef → Incoming (Message D) → Unit {0} → Script (Message D) (Control (Unit {0}))
  unfolding ask_for_job
  work boss (message (next (job document))) state =
      ask_for_job boss (returns (value (continue state)))
  work boss (message (next drained)) state = returns (value stop)
  work boss (message (request_job r into)) state = returns panic
  work boss (terminated id) state = returns panic

  unfoldable pub worker : ActorRef → Behaviour (Message D) (Unit {0})
  unfolding work ask_for_job
  worker boss = record { init = ask_for_job boss (returns (value tt)); receive = work boss }
