-- ===== src/Examples/WorkPulling/Laws.antt =====
-- waltz/examples/work_pulling.rs: who gets which document.
use waltz.Base.{ℕ, ◌≡◌, refl, ap, ◌∙◌, some, List, [], ◌∷◌, ◌++◌}
use waltz.Extern.Flume.{Flume}
use waltz.Extern.Oneshot.{Oneshot}
use waltz.Extern.Watch.{Watch}
use waltz.Actor.{Incoming, message, continue}
use waltz.Context.{Context}
use waltz.Memory.{Heap}
use waltz.Reference.{ActorRef, tell}
use waltz.World.{value, World, run_script}
use waltz.Examples.Receives.{receives, receives-continue}
use waltz.Examples.WorkPulling.{
  Message, request_job, next, job, drained, pop, answer, manage, manager,
}

-- The documents in the order in which they are handed out: the last first.
abbrev pub reversed : {D : Type 0} → List D → List D
reversed [] = []
reversed (d ∷ ds) = reversed ds ++ d ∷ []

pop_last : {D : Type 0} (ds : List D) (d : D) → pop (ds ++ d ∷ []) ≡ some (d, ds)
unfolding pop
pop_last [] d = refl
pop_last (e ∷ ds) d = rw (pop_last ds d, pop) refl

-- The requests of workers, one after the other.
abbrev pub requests : {D : Type 0} → List ActorRef → List (Incoming (Message D))
requests [] = []
requests (r ∷ rs) = message (request_job r next) ∷ requests rs

-- What is left of `ds` behind the requests.
abbrev pub left : {D : Type 0} → List D → List ActorRef → List D
left [] rs = []
left (d ∷ ds) [] = d ∷ ds
left (d ∷ ds) (r ∷ rs) = left ds rs

module _ {D : Type 0} ⦃flume : Flume (Incoming (Message D))⦄ ⦃oneshot : Oneshot (Unit {0})⦄ where
  -- What the workers are told if `ds` are handed out in this order.
  abbrev pub told : List D → List ActorRef → Heap (Message D) → Heap (Message D)
  told ds [] h = h
  told [] (r ∷ rs) h = told [] rs (tell r (next drained) h)
  told (d ∷ ds) (r ∷ rs) h = told ds rs (tell r (next (job d)) h)

module _ {D T : Type 0} ⦃flume : Flume (Incoming (Message D))⦄ ⦃oneshot : Oneshot (Unit {0})⦄
    ⦃watch : Watch⦄ where
  -- The manager hands out every document once, in the order from the last to the first, to the
  -- workers in the order of their requests, and tells each one that asks behind the last document
  -- that the jobs are drained; the jobs that it keeps are those not handed out.
  pub receives-manager :
      (worker : ActorRef → ℕ) (documents ds : List D) (rs : List ActorRef) (workers : ℕ)
      (c : Context) (w : World (Message D) T)
      → receives
          (manager worker documents)
          (requests rs)
          (record { jobs = reversed ds; workers = workers })
          c
          w
        ≡ (
          value (continue (record { jobs = reversed (left ds rs); workers = workers })),
          c,
          record w { heap = told ds rs w.heap },
        )
  unfolding receives manager manage answer run_script pop
  receives-manager worker documents [] [] workers c w = refl
  receives-manager worker documents (d ∷ ds) [] workers c w = refl
  receives-manager worker documents [] (r ∷ rs) workers c w =
      receives-manager worker documents [] rs workers c
        (record w { heap = tell r (next drained) w.heap })
  receives-manager worker documents (d ∷ ds) (r ∷ rs) workers c w =
      receives-continue (manager worker documents) (request_job r next) (requests rs)
        (record { jobs = reversed (d ∷ ds); workers = workers })
        (record { jobs = reversed ds; workers = workers }) c c w
        (record w { heap = tell r (next (job d)) w.heap })
        (ap
          (λ popped.
            run_script
              (answer popped r next (record { jobs = reversed (d ∷ ds); workers = workers })) c w)
          (pop_last (reversed ds) d))
      ∙ receives-manager worker documents ds rs workers c
          (record w { heap = tell r (next (job d)) w.heap })
