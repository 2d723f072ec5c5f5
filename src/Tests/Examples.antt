-- ===== src/Tests/Examples.antt =====
-- Tests of the actors of waltz/examples.
use waltz.Base.{ℕ, ◌+◌, ◌≡◌, refl, false, none, some, List, [], ◌∷◌, ◌++◌, arith}
use waltz.Context.{Context}
use waltz.Reference.{ActorRef, watcher_registry, tell}
use waltz.Base.Map
use waltz.Base.Map.{Map}
use waltz.Extern.Flume.{Flume, list_flume}
use waltz.Extern.Oneshot.{Oneshot}
use waltz.Actor.{Incoming, message, terminated, continue, stop}
use waltz.World.{value, error, World}
use waltz.Examples.Receives.{receives}
use waltz.Examples.ScatterGather
use waltz.Examples.ScatterGather.{gatherer, Gathering, partial}
use waltz.Examples.ScatterGather.Laws.{receives-gatherer}
use waltz.Examples.Supervision
use waltz.Examples.Supervision.{loader, load, finish, toxic}
use waltz.Examples.Supervision.Laws.{receives-loader, loads}
use waltz.Examples.Counter
use waltz.Examples.Counter.{counter, count_is}
use waltz.Examples.Counter.Laws.{Request, increments, asks, items, replied, receives-counter}
use waltz.Examples.DeviceManager
use waltz.Examples.DeviceManager.{running, reading, query}
use waltz.Examples.DeviceManager.Answers.{
  Answer, reads, ends, all_incoming, IsKeyed, WatchesPending,
}
use waltz.Examples.DeviceManager.Laws.{receives-query}
use waltz.Config.{unbounded}
use waltz.Mailbox
use waltz.Mailbox.Laws.{handle_of}
use waltz.Examples.WorkPulling
use waltz.Examples.WorkPulling.{manager, Managing, request_job}
use waltz.Examples.WorkPulling.Laws.{receives-manager, requests, told}
use waltz.Tests.Instances.{unit_oneshot, the_watch}
use waltz.Tests.References.{context, other, actor}

instance abbrev sums_flume : Flume (Incoming ScatterGather.Message)
sums_flume = list_flume (Incoming ScatterGather.Message)

instance abbrev loads_flume : Flume (Incoming Supervision.Message)
loads_flume = list_flume (Incoming Supervision.Message)

instance abbrev counts_flume : Flume (Incoming Counter.Message)
counts_flume = list_flume (Incoming Counter.Message)

instance abbrev jobs_flume : Flume (Incoming (WorkPulling.Message ℕ))
jobs_flume = list_flume (Incoming (WorkPulling.Message ℕ))

abbrev world : (M : Type 0) ⦃flume : Flume (Incoming M)⦄ → World M ℕ
world M ⦃flume⦄ = record {
  heap = record {
    wires = record { counts = λ cell. 0; channels = λ loc. flume.unbounded };
    registries = λ loc. none;
    terminated_txs = λ loc. none;
    oneshots = λ loc. Oneshot.channel unit_oneshot;
    dead_letters = [];
  };
  stops = λ loc. record { count = 1; changed = false };
  tasks = λ loc. none;
  next = 20;
  log = [];
}

-- The context that watches the actors 6, 7 and 8.
abbrev watching : Context
watching = record context {
  watched =
      (6, record { registry = 7 })
      ∷ (7, record { registry = 9 })
      ∷ (8, record { registry = 12 })
      ∷ [];
}

-- The actor 5 is not watched; 8 is signaled last, before a second signal of 7.
receives-gatherer_example :
    let start : Gathering = record { remaining = 3; total = 0 } in
    let early =
      message (partial 325)
      ∷ terminated 7
      ∷ terminated 5
      ∷ message (partial 950)
      ∷ terminated 6
      ∷ [] in
    (receives (gatherer 1) early start watching (world ScatterGather.Message) ≡ (
      value (continue (record { remaining = 1; total = 1275 })),
      record context { watched = (8, record { registry = 12 }) ∷ [] },
      world ScatterGather.Message,
    ))
    × (receives
          (gatherer 1)
          (early ++ terminated 8 ∷ terminated 7 ∷ [])
          start
          watching
          (world ScatterGather.Message)
        ≡ (value stop, record context { watched = [] }, world ScatterGather.Message))
unfolding Map.remove Map.get
receives-gatherer_example =
    receives-gatherer 1
      (message (partial 325)
        ∷ terminated 7
        ∷ terminated 5
        ∷ message (partial 950)
        ∷ terminated 6
        ∷ [])
      (terminated 7 ∷ []) 8 (record { registry = 12 }) 3 watching (world ScatterGather.Message)
      (tt, (tt, (tt, (tt, (tt, tt))))) (omega arith) refl (omega arith) (omega arith)

receives-loader_example :
    (receives loader (loads (1 ∷ 2 ∷ []) []) 0 context (world Supervision.Message)
      ≡ (value (continue 2), context, world Supervision.Message))
    × (receives loader
          (loads (1 ∷ 2 ∷ []) (message (load toxic) ∷ message finish ∷ []))
          0
          context
          (world Supervision.Message)
        ≡ (error, context, world Supervision.Message))
    × (receives loader
          (loads (1 ∷ 2 ∷ []) (message finish ∷ message finish ∷ []))
          0
          context
          (world Supervision.Message)
        ≡ (value stop, context, world Supervision.Message))
receives-loader_example =
    receives-loader (1 ∷ 2 ∷ []) (message finish ∷ []) context (world Supervision.Message)
      (omega arith, (omega arith, tt)) (omega arith)

receives-manager_example :
    receives
      (manager (λ r. 1) (5 ∷ 6 ∷ []))
      (requests (other ∷ actor ∷ other ∷ []))
      (record { jobs = 5 ∷ 6 ∷ []; workers = 3 })
      context
      (world (WorkPulling.Message ℕ))
    ≡ (
      value (continue (record { jobs = []; workers = 3 })),
      context,
      record (world (WorkPulling.Message ℕ)) {
        heap = told (6 ∷ 5 ∷ []) (other ∷ actor ∷ other ∷ []) (world (WorkPulling.Message ℕ)).heap;
      },
    )
receives-manager_example =
    receives-manager (λ r. 1) (5 ∷ 6 ∷ []) (6 ∷ 5 ∷ []) (other ∷ actor ∷ other ∷ []) 3 context
      (world (WorkPulling.Message ℕ))

-- Readings that are numbers.
abbrev numbers : DeviceManager.Float
numbers = record {
  F = ℕ;
  zero = 0;
  add = ◌+◌;
  divide = λ sum count. sum;
  is_nan = λ degrees. false;
}

instance abbrev readings_flume : Flume (Incoming (DeviceManager.Message numbers))
readings_flume = list_flume (Incoming (DeviceManager.Message numbers))

abbrev device_8 : ActorRef
device_8 = record { actor_id = 8; mailbox_handle = handle_of unbounded 12 }

abbrev pending : Map ActorRef
pending = (6, other) ∷ (8, device_8) ∷ []

-- The context of a query that watches them.
abbrev querying : Context
querying = record context {
  watched = (6, record { registry = 7 }) ∷ (8, record { registry = 12 }) ∷ [];
}

pending-IsKeyed : IsKeyed pending
unfolding Map.get
pending-IsKeyed id d e = ground (arith, e)

querying-WatchesPending : WatchesPending querying.watched pending
unfolding Map.get watcher_registry
querying-WatchesPending id = ground arith

-- The actor 7 is not pending; its end is dropped. The device 8 ends behind the reading of the device 6.
abbrev answers : List (Answer numbers)
answers = ends 7 ∷ reads 6 (some 20) ∷ []

receives-query_example :
    let w = world (DeviceManager.Message numbers) in
    let released_heap = Mailbox.remove (record { registry = 7 }) 3 w.heap in
    (receives
        (query numbers)
        (all_incoming numbers answers)
        (running pending 0 0 actor (reading 3))
        querying
        w
      ≡ (
        value (continue (running ((8, device_8) ∷ []) 20 1 actor (reading 3))),
        record context { watched = (8, record { registry = 12 }) ∷ [] },
        record w { heap = released_heap },
      ))
    × (receives
          (query numbers)
          (all_incoming numbers answers ++ terminated 8 ∷ [])
          (running pending 0 0 actor (reading 3))
          querying
          w
        ≡ (
          value stop,
          record context { watched = [] },
          record w { heap = tell actor (reading 3 (some 20)) released_heap },
        ))
unfolding Map.remove Map.get watcher_registry
receives-query_example =
    receives-query numbers answers (ends 8) [] pending 0 0 actor (reading 3) (8, device_8) []
      querying (world (DeviceManager.Message numbers)) pending-IsKeyed querying-WatchesPending refl
      refl (omega arith)

-- Two increments, an ask and a third increment.
abbrev asked : List Request
asked = increments ∷ increments ∷ asks other count_is ∷ increments ∷ []

receives-counter_example :
    (receives counter (items asked []) 0 context (world Counter.Message)
      ≡ (value (continue 3), context, replied 0 asked (world Counter.Message)))
    × (receives counter (items asked (message Counter.stop ∷ [])) 0 context (world Counter.Message)
        ≡ (value stop, context, replied 0 asked (world Counter.Message)))
receives-counter_example = receives-counter asked [] context (world Counter.Message) (omega arith)
