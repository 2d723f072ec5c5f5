-- ===== src/Tree/Awaiting.antt =====
-- waltz/src/actor_context.rs: an `await` of the end of children is pending only while a child runs.
use waltz.Base.{
  false_is_not_true, ℕ, ◌+◌, ◌<◌, ◌≤◌, ◌≡◌, ◌≢◌, refl, sym, ap, ◌∙◌, subst, inl, inr, true, false,
  is_some, some, of_some, ◌∷◌, if-cases, Option-cases, arith,
}
use waltz.Extern.Flume.{Flume}
use waltz.Extern.Oneshot.{Oneshot}
use waltz.Extern.Watch.{Watch}
use waltz.Actor.{Incoming}
use waltz.Config.{ActorConfig}
use waltz.Restart.{Instant}
use waltz.Mailbox.{make_mailbox}
use waltz.Reference.{tell, new_self}
use waltz.Context
use waltz.Context.{take_watched, take_watched_for}
use waltz.World.{
  Behaviour, Phase, initializing, receiving, stopping_children, backing_off, terminating, finished,
  Task, World, spawn, spawn_child, stop_children,
}
use waltz.RunLoop.{poll}
use waltz.RunLoop.Terminate.{terminate, finish}
use waltz.RunLoop.Kept.{channel_of, runs_in, is_awaiting, IsActive, Kept}
use waltz.RunLoop.Kept.Polls.{poll-Kept}
use waltz.System.{spawn_root}
use waltz.Tree.{Node}
use waltz.Tree.Distinct.{awaited_child}
use waltz.Tree.Shape.{node_of, node_at, tree_of, spawned_task}
use waltz.Tree.Polls.{unwatch-stopping}
use waltz.Tree.Root.{IsNew, root_world}
use waltz.Tree.Reached.{poll_task, Step, polls, outside, Reached, starts, goes_on, Reached-Whole}

-- The channel that is awaited is older than the context's own.
abbrev pub Waits : {S : Type 0} → Phase S → ℕ → Type 0
Waits initializing own = Unit {0}
Waits (receiving state up_since) own = Unit {0}
Waits (stopping_children delay old) own = old < own
Waits (backing_off until) own = Unit {0}
Waits (terminating old) own = old < own
Waits finished own = Unit {0}

not_awaiting-Waits : {S : Type 0} (p : Phase S) (own : ℕ) → is_awaiting p ≡ false → Waits p own
not_awaiting-Waits initializing own e = tt
not_awaiting-Waits (receiving state up_since) own e = tt
not_awaiting-Waits (stopping_children delay old) own e = absurd (ground (arith, e))
not_awaiting-Waits (backing_off until) own e = tt
not_awaiting-Waits (terminating old) own e = absurd (ground (arith, e))
not_awaiting-Waits finished own e = tt

active_waits : {S : Type 0} (p : Phase S) → IsActive p → is_awaiting p ≡ false
active_waits initializing a = refl
active_waits (receiving state up_since) a = refl
active_waits (stopping_children delay old) a = elim a [ ]
active_waits (backing_off until) a = elim a [ ]
active_waits (terminating old) a = elim a [ ]
active_waits finished a = elim a [ ]

Waits-channel_of :
    {S : Type 0} (p : Phase S) (own : ℕ)
    → is_awaiting p ≡ true
    → Waits p own
    → channel_of p own ≢ own
Waits-channel_of initializing own e h = absurd (ground (arith, e))
Waits-channel_of (receiving state up_since) own e h = absurd (ground (arith, e))
Waits-channel_of (stopping_children delay old) own e h = λ same. omega (arith, h, same)
Waits-channel_of (backing_off until) own e h = absurd (ground (arith, e))
Waits-channel_of (terminating old) own e h = λ same. omega (arith, h, same)
Waits-channel_of finished own e h = absurd (ground (arith, e))

-- A task of a world in which `next` is the next location.
abbrev IsLater : {S : Type 0} → ℕ → Task S → Type 0
IsLater next t = Waits t.phase t.context.stopping × (t.context.stopping < next)

module _ {M S : Type 0} ⦃flume : Flume (Incoming M)⦄ ⦃oneshot : Oneshot (Unit {0})⦄
    ⦃watch : Watch⦄ where
  record Later (p : Task S × World M S) : Type 0 where
    polled : IsLater p.1.next p.0
    others : (j : ℕ) (u : Task S) → p.1.tasks j ≡ some u → IsLater p.1.next u

  -- A step that leaves the other tasks.
  quiet :
      (t t' : Task S) (w w' : World M S)
      → IsLater w'.next t'
      → w.next ≤ w'.next
      → w'.tasks ≡ w.tasks
      → Later (t, w)
      → Later (t', w')
  quiet t t' w w' later grown same v = record {
    polled = later;
    others = λ j u e.
        let h = v.others j u (sym (ap (λ f. f j) same) ∙ e) in (h.0, omega (arith, h.1, grown));
  }

  unwatched-Later :
      (t : Task S) (w : World M S) (c : Context.Context)
      → c.stopping ≡ t.context.stopping
      → Later (t, w)
      → IsLater w.next (record t { context = c })
  unwatched-Later t w c e v = subst (λ own. Waits t.phase own × (own < w.next)) (sym e) v.polled

  Later-Kept : Kept {M = M} {S = S} Later
  unfolding Context.watch stop_children take_watched_for take_watched terminate spawn_child spawn
      finish Context.new
  Later-Kept = record {
    told = λ t w r m v.
        quiet t t w (record w { heap = tell r m w.heap }) v.polled (omega arith) refl v;
    watched = λ t w r v.
        let (result, c, h) = Context.watch r t.context w.heap in
        quiet t (record t { context = c }) w (record w { heap = h }) v.polled (omega arith) refl v;
    unwatched = λ t w r v.
        let (c, h) = Context.unwatch r t.context w.heap in
        quiet t (record t { context = c }) w (record w { heap = h })
          (unwatched-Later t w c (unwatch-stopping r t.context w.heap) v) (omega arith) refl v;
    spawned = λ t w behaviour config active v. record {
      polled = (v.polled.0, omega (arith, v.polled.1));
      others = λ j u e.
          elim (if-cases w.next j (some (spawned_task t.context.stopping behaviour config w))
            (w.tasks j)) [
              | inl (here, e') ↦
                  subst (IsLater (w.next + 2)) (of_some (sym e' ∙ e)) (tt, omega arith)
              | inr (away, e') ↦ let h = v.others j u (sym e' ∙ e) in (h.0, omega (arith, h.1))
            ];
    };
    taken = λ t w other v.
        quiet t (record t { context = (take_watched_for other t.context).1 }) w w v.polled
          (omega arith) refl v;
    counted = λ t w restarts v.
        quiet t (record t { restarts = restarts }) w w v.polled (omega arith) refl v;
    logged =
        λ t w event v. quiet t t w (record w { log = event ∷ w.log }) v.polled (omega arith) refl v;
    received = λ t w incoming h arrived v.
        quiet t t w (record w { heap = h }) v.polled (omega arith) refl v;
    becomes = λ t w phase whole runs active v.
        quiet t (record t { phase = phase }) w w
          (not_awaiting-Waits phase t.context.stopping (active_waits phase active), v.polled.1)
          (omega arith) refl v;
    passes = λ t w phase runs left whole running free v.
        quiet t (record t { phase = phase }) w w
          (not_awaiting-Waits phase t.context.stopping free, v.polled.1) (omega arith) refl v;
    restarts =
        λ t w delay whole runs v. quiet t _ w _ (v.polled.1, omega arith) (omega arith) refl v;
    terminates = λ t w whole runs v. quiet t _ w _ (v.polled.1, omega arith) (omega arith) refl v;
    finishes = λ t w runs left v. quiet t _ w _ (tt, v.polled.1) (omega arith) refl v;
  }

  AllLater : World M S → Type 0
  AllLater w = (j : ℕ) (u : Task S) → w.tasks j ≡ some u → IsLater w.next u

  poll_task-Later :
      (behaviours : ℕ → Behaviour M S) (id : ℕ) (now : Instant) (t : Task S) (w : World M S)
      → w.tasks id ≡ some t
      → AllLater w
      → AllLater (poll_task behaviours id now t w)
  unfolding poll_task AllLater
  poll_task-Later behaviours id now t w at v =
      let (t', w') = poll behaviours now t w in
      let v' : Later (t', w') =
        poll-Kept Later Later-Kept behaviours now t w (record { polled = v id t at; others = v }) in
      λ j u e. elim (if-cases id j (some t') (w'.tasks j)) [
        | inl (here, e') ↦ subst (IsLater w'.next) (of_some (sym e' ∙ e)) v'.polled
        | inr (away, e') ↦ v'.others j u (sym e' ∙ e)
      ]

  Step-Later :
      (behaviours : ℕ → Behaviour M S) (w w' : World M S)
      → Step behaviours w w'
      → AllLater w
      → AllLater w'
  unfolding AllLater
  Step-Later behaviours w w' (polls id now t at e) v =
      subst AllLater (sym e) (poll_task-Later behaviours id now t w at v)
  Step-Later behaviours w w' (outside h e) v = subst AllLater (sym e) v

  module _ (behaviours : ℕ → Behaviour M S) (behaviour : ℕ) (config : ActorConfig)
      (first : World M S) where
    spawn_root-Later : IsNew first → AllLater (root_world behaviour config first)
    unfolding spawn_root spawn new_self make_mailbox Context.new AllLater
    spawn_root-Later new j u e =
        let root_task : Task S =
          spawned_task (first.next + 1) behaviour config (record first { next = first.next + 2 }) in
        elim (if-cases (first.next + 2) j (some root_task) (first.tasks j)) [
          | inl (here, e') ↦
              subst (IsLater (first.next + 2 + 2)) (of_some (sym e' ∙ e)) (tt, omega arith)
          | inr (away, e') ↦
              absurd (false_is_not_true (ap is_some (sym (new.no_task j) ∙ sym e' ∙ e)))
        ]

    Reached-Later :
        (w : World M S)
        → IsNew first
        → Reached behaviours (root_world behaviour config first) w
        → AllLater w
    Reached-Later w new starts = spawn_root-Later new
    Reached-Later w new (goes_on {w = before} reached step) =
        Step-Later behaviours before w step (Reached-Later before new reached)

    -- An `await` of the end of children is pending only while a child runs: in every world that the
    -- system reaches, if a task awaits, before a restart or in `terminate`, and the channel that it awaits
    -- is not closed, there is a task that has not finished and holds that channel as its parent's.
    pub await_has_child :
        (w : World M S) (id : ℕ) (t : Task S)
        → IsNew first
        → Reached behaviours (root_world behaviour config first) w
        → w.tasks id ≡ some t
        → is_awaiting t.phase ≡ true
        → let awaited = channel_of t.phase t.context.stopping in
          (watch.receivers (w.stops awaited) ≢ 0)
          → (j : ℕ) × (u : Task S) × (w.tasks j ≡ some u)
            × (u.phase ≢ finished)
            × (u.parent_stopping_rx ≡ awaited)
    unfolding AllLater
    await_has_child w id t new reached at awaiting open_ =
        let later = Reached-Later w new reached id t at in
        let (j, m, there, runs, parent) =
          awaited_child _ (tree_of w) id (node_of t)
            (Reached-Whole behaviours behaviour config first w new reached) (ap node_at at)
            (Waits-channel_of t.phase t.context.stopping awaiting later.0) open_ in
        elim (Option-cases (w.tasks j)) [
          | inl absent ↦ absurd (false_is_not_true (ap is_some (sym (ap node_at absent) ∙ there)))
          | inr (u, present) ↦
              let same : node_of u ≡ m = of_some (sym (ap node_at present) ∙ there) in
              (
                j,
                u,
                present,
                (λ ended. unfinished u m same runs ended),
                ap (λ n. n.parent) same ∙ parent,
              )
        ]
      where
        unfinished :
            (u : Task S) (m : Node) → node_of u ≡ m → m.is_running ≡ true → u.phase ≡ finished → ⊥
        unfinished u m same runs ended =
            false_is_not_true (sym (ap runs_in ended) ∙ ap (λ n. n.is_running) same ∙ runs)
