-- ===== src/RunLoop/Kept.antt =====
-- waltz/src/actor_context.rs: the changes that a poll of a task is made of. What each of them keeps, a
-- poll keeps.
pub mod Handlers
pub mod Polls
use waltz.Base.{ℕ, ◌≡◌, refl, inl, inr, Bool, true, false, List, ◌∷◌, some, Result-cases}
use waltz.Base.Duration.{Duration}
use waltz.Extern.Flume.{Flume}
use waltz.Extern.Oneshot.{Oneshot}
use waltz.Extern.Watch.{Watch}
use waltz.Actor.{ActorId, Incoming}
use waltz.Config.{ActorConfig}
use waltz.Memory.{Heap}
use waltz.Mailbox.{recv}
use waltz.Context
use waltz.Context.{take_watched_for}
use waltz.Reference.{ActorRef, tell}
use waltz.World.{
  Script, returns, tells, watches, unwatches, spawns, self_refs, Phase, initializing, receiving,
  stopping_children, backing_off, terminating, finished, Task, Event, World, spawn_child,
  run_script, stop_children,
}
use waltz.RunLoop.Terminate.{terminate, finish}

-- The channel of which the children have receivers.
abbrev pub channel_of : {S : Type 0} → Phase S → ℕ → ℕ
channel_of initializing own = own
channel_of (receiving state up_since) own = own
channel_of (stopping_children delay old) own = old
channel_of (backing_off until) own = own
channel_of (terminating old) own = old
channel_of finished own = own

abbrev pub runs_in : {S : Type 0} → Phase S → Bool
runs_in initializing = true
runs_in (receiving state up_since) = true
runs_in (stopping_children delay old) = true
runs_in (backing_off until) = true
runs_in (terminating old) = true
runs_in finished = false

-- In these phases the task awaits the end of children.
abbrev pub is_awaiting : {S : Type 0} → Phase S → Bool
is_awaiting initializing = false
is_awaiting (receiving state up_since) = false
is_awaiting (stopping_children delay old) = true
is_awaiting (backing_off until) = false
is_awaiting (terminating old) = true
is_awaiting finished = false

-- In these phases the actor's code runs.
abbrev pub IsActive : {S : Type 0} → Phase S → Type 0
IsActive initializing = Unit {0}
IsActive (receiving state up_since) = Unit {0}
IsActive (stopping_children delay old) = ⊥
IsActive (backing_off until) = ⊥
IsActive (terminating old) = ⊥
IsActive finished = ⊥

pub active-channel :
    {S : Type 0} (p : Phase S) (own : ℕ)
    → IsActive p
    → (channel_of p own ≡ own) × (runs_in p ≡ true)
active-channel initializing own a = (refl, refl)
active-channel (receiving state up_since) own a = (refl, refl)
active-channel (stopping_children delay old) own a = elim a [ ]
active-channel (backing_off until) own a = elim a [ ]
active-channel (terminating old) own a = elim a [ ]
active-channel finished own a = elim a [ ]

-- `P` is kept by each change, `t` being the task that is polled.
pub record Kept {M S : Type 0} ⦃flume : Flume (Incoming M)⦄ ⦃oneshot : Oneshot (Unit {0})⦄
    ⦃watch : Watch⦄ (P : Task S × World M S → Type 0) : Type 0 where
  pub told :
      (t : Task S) (w : World M S) (r : ActorRef) (m : M)
      → P (t, w)
      → P (t, record w { heap = tell r m w.heap })
  pub watched :
      (t : Task S) (w : World M S) (r : ActorRef)
      → P (t, w)
      → let (result, c, h) = Context.watch r t.context w.heap in
        P (record t { context = c }, record w { heap = h })
  pub unwatched :
      (t : Task S) (w : World M S) (r : ActorRef)
      → P (t, w)
      → let (c, h) = Context.unwatch r t.context w.heap in
        P (record t { context = c }, record w { heap = h })
  pub spawned :
      (t : Task S) (w : World M S) (behaviour : ℕ) (config : ActorConfig)
      → IsActive t.phase
      → P (t, w)
      → P (t, (spawn_child t.context behaviour config w).1)
  pub taken :
      (t : Task S) (w : World M S) (other : ActorId)
      → P (t, w)
      → P (record t { context = (take_watched_for other t.context).1 }, w)
  pub counted :
      (t : Task S) (w : World M S) (restarts : ℕ)
      → P (t, w)
      → P (record t { restarts = restarts }, w)
  pub logged :
      (t : Task S) (w : World M S) (event : Event)
      → P (t, w)
      → P (t, record w { log = event ∷ w.log })
  pub received :
      (t : Task S) (w : World M S) (incoming : Incoming M) (h : Heap M)
      → recv t.mailbox w.heap ≡ some (incoming, h)
      → P (t, w)
      → P (t, record w { heap = h })
  -- From one phase to another in which the children are those of the context.
  pub becomes :
      (t : Task S) (w : World M S) (phase : Phase S)
      → channel_of t.phase t.context.stopping ≡ t.context.stopping
      → runs_in t.phase ≡ true
      → IsActive phase
      → P (t, w)
      → P (record t { phase = phase }, w)
  -- Behind an `await` of the end of the children.
  pub passes :
      (t : Task S) (w : World M S) (phase : Phase S)
      → runs_in t.phase ≡ true
      → watch.receivers (w.stops (channel_of t.phase t.context.stopping)) ≡ 0
      → channel_of phase t.context.stopping ≡ t.context.stopping
      → runs_in phase ≡ true
      → is_awaiting phase ≡ false
      → P (t, w)
      → P (record t { phase = phase }, w)
  pub restarts :
      (t : Task S) (w : World M S) (delay : Duration)
      → channel_of t.phase t.context.stopping ≡ t.context.stopping
      → runs_in t.phase ≡ true
      → P (t, w)
      → let (old, c, w') = stop_children t.context w in
        P (record t { context = c; phase = stopping_children delay old }, w')
  pub terminates :
      (t : Task S) (w : World M S)
      → channel_of t.phase t.context.stopping ≡ t.context.stopping
      → runs_in t.phase ≡ true
      → P (t, w)
      → P (terminate t w)
  pub finishes :
      (t : Task S) (w : World M S)
      → runs_in t.phase ≡ true
      → watch.receivers (w.stops (channel_of t.phase t.context.stopping)) ≡ 0
      → P (t, w)
      → P (finish t w)

module _ {M S : Type 0} ⦃flume : Flume (Incoming M)⦄ ⦃oneshot : Oneshot (Unit {0})⦄ ⦃watch : Watch⦄
    (P : Task S × World M S → Type 0) (k : Kept P) where
  pub run_script-Kept :
      {A : Type 0} (script : Script M A) (t : Task S) (w : World M S)
      → IsActive t.phase
      → P (t, w)
      → let (outcome, c, w') = run_script script t.context w in P (record t { context = c }, w')
  unfolding run_script
  run_script-Kept (returns outcome) t w active v = v
  run_script-Kept (tells r m rest) t w active v =
      run_script-Kept rest t (record w { heap = tell r m w.heap }) active (k.told t w r m v)
  run_script-Kept (watches r rest) t w active v =
      let (result, c, h) = Context.watch r t.context w.heap in
      elim (Result-cases result) [
        | inl (_, e) ↦
            rw (e, run_script)
              (run_script-Kept rest (record t { context = c }) (record w { heap = h }) active
                (k.watched t w r v))
        | inr (_, e) ↦ rw (e, run_script) (k.watched t w r v)
      ]
  run_script-Kept (self_refs rest) t w active v =
      run_script-Kept (rest t.context.self_ref.actor_ref) t w active v
  run_script-Kept (unwatches r rest) t w active v =
      let (c, h) = Context.unwatch r t.context w.heap in
      run_script-Kept rest (record t { context = c }) (record w { heap = h }) active
        (k.unwatched t w r v)
  run_script-Kept (spawns behaviour config rest) t w active v =
      let (child, w') = spawn_child t.context behaviour config w in
      run_script-Kept (rest child) t w' active (k.spawned t w behaviour config active v)
