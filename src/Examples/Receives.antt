-- ===== src/Examples/Receives.antt =====
-- waltz/src/actor_context.rs: the inner loop of a task over the items that are delivered to it, by
-- itself, for the actors of the examples.
use waltz.Base.{Bool, true, false, none, some, List, [], ◌∷◌, ◌≡◌, refl, ap}
use waltz.Base.Map
use waltz.Extern.Flume.{Flume}
use waltz.Extern.Oneshot.{Oneshot}
use waltz.Extern.Watch.{Watch}
use waltz.Actor.{ActorId, Incoming, message, terminated, Control, continue, stop}
use waltz.Restart.{Instant}
use waltz.Memory.{WatcherRegistry}
use waltz.Context.{Context, take_watched_for}
use waltz.World.{Outcome, value, error, panic, Behaviour, Task, World, run_script}
use waltz.RunLoop.{catch_and_log, after_receive}

-- Whether the actor gets the item: a terminated signal for an actor that is not watched is dropped,
-- and a watch ends with its signal.
unfoldable pub accepts : {M : Type 0} → Incoming M → Context → Bool × Context
accepts (message m) c = (true, c)
accepts (terminated other) c = take_watched_for other c

module _ {M T : Type 0} ⦃flume : Flume (Incoming M)⦄ ⦃oneshot : Oneshot (Unit {0})⦄
    ⦃watch : Watch⦄ where
  -- What follows one call of `receive`: the rest of the loop, or its end.
  unfoldable pub proceed :
      {S : Type 0}
      → (S → Context → World M T → Outcome (Control S) × Context × World M T)
      → Outcome (Control S) × Context × World M T
      → Outcome (Control S) × Context × World M T
  proceed rest (value (continue state), c, w) = rest state c w
  proceed rest (value stop, c, w) = (value stop, c, w)
  proceed rest (error, c, w) = (error, c, w)
  proceed rest (panic, c, w) = (panic, c, w)

  -- The loop over the items that are delivered, up to the first `receive` that does not continue; the
  -- parent does not stop the actor meanwhile.
  unfoldable pub receives :
      {S : Type 0}
      → Behaviour M S
      → List (Incoming M)
      → S
      → Context
      → World M T
      → Outcome (Control S) × Context × World M T
  unfolding proceed accepts
  receives b [] state c w = (value (continue state), c, w)
  receives b (incoming ∷ rest) state c w =
      let (accepted, c') = accepts incoming c in
      elim accepted [
        | true ↦ proceed (receives b rest) (run_script (b.receive incoming state) c' w)
        | false ↦ receives b rest state c' w
      ]

  -- A message after which the actor continues.
  pub receives-continue :
      {S : Type 0} (b : Behaviour M S) (m : M) (rest : List (Incoming M)) (state next : S)
      (c c' : Context) (w w' : World M T)
      → run_script (b.receive (message m) state) c w ≡ (value (continue next), c', w')
      → receives b (message m ∷ rest) state c w ≡ receives b rest next c' w'
  unfolding receives
  receives-continue b m rest state next c c' w w' e = ap (proceed (receives b rest)) e

  -- A signal that is dropped.
  pub receives_dropped :
      {S : Type 0} (b : Behaviour M S) (id : ActorId) (rest : List (Incoming M)) (state : S)
      (c : Context) (w : World M T)
      → Map.get id c.watched ≡ none
      → receives b (terminated id ∷ rest) state c w
        ≡ receives b rest state (record c { watched = Map.remove id c.watched }) w
  unfolding receives take_watched_for
  receives_dropped b id rest state c w e = rw (e, receives) refl

  -- A signal of a watched actor, after which the actor continues.
  pub receives_signaled :
      {S : Type 0} (b : Behaviour M S) (id : ActorId) (r : WatcherRegistry)
      (rest : List (Incoming M)) (state next : S) (c : Context) (w w' : World M T)
      → Map.get id c.watched ≡ some r
      → let c' : Context = record c { watched = Map.remove id c.watched } in
        (c'' : Context)
        → run_script (b.receive (terminated id) state) c' w ≡ (value (continue next), c'', w')
        → receives b (terminated id ∷ rest) state c w ≡ receives b rest next c'' w'
  unfolding receives take_watched_for
  receives_signaled b id r rest state next c w w' e c'' run =
      rw (e, receives) (ap (proceed (receives b rest)) run)

module _ {M S : Type 0} ⦃flume : Flume (Incoming M)⦄ ⦃oneshot : Oneshot (Unit {0})⦄
    ⦃watch : Watch⦄ where
  -- What a task does with the outcome of the loop.
  abbrev pub concluded :
      Outcome (Control S) × Context × World M S → Instant → Instant → Task S → Task S × World M S
  concluded run up_since now t =
      after_receive (catch_and_log run.0) up_since now (record t { context = run.1 }) run.2
