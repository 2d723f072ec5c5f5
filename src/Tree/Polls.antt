-- ===== src/Tree/Polls.antt =====
-- waltz/src/actor_context.rs: a poll of a task is a sequence of steps of the tree.
use waltz.Base.{ℕ, ◌≡◌, refl, sym, ap, ◌∙◌, inl, inr, true, Option-cases, ◌∷◌, length, ap₂}
use waltz.Base.Map
use waltz.Base.Map.{values}
use waltz.Extern.Flume.{Flume}
use waltz.Extern.Oneshot.{Oneshot}
use waltz.Extern.Watch.{Watch}
use waltz.Actor.{Incoming}
use waltz.Restart.{Instant}
use waltz.Mailbox.{split}
use waltz.Memory.{Heap}
use waltz.Reference.{ActorRef, tell}
use waltz.Context
use waltz.Context.{Context, take_watched, take_watched_for}
use waltz.World.{
  Behaviour, Phase, stopping_children, terminating, messages_dropped, Task, World, stop_children,
}
use waltz.RunLoop.{poll}
use waltz.RunLoop.Terminate.{deregister, drain, terminate}
use waltz.RunLoop.Kept.{channel_of, runs_in, IsActive, active-channel, Kept}
use waltz.RunLoop.Kept.Polls.{poll-Kept}
use waltz.Tree.Shape.{node_of}
use waltz.Tree.Moves.{
  Keeps, unseen, spawn_child-Keeps, stop_children-Keeps, passes-Keeps, finish-Keeps,
}

module _ {M : Type 0} ⦃flume : Flume (Incoming M)⦄ ⦃oneshot : Oneshot (Unit {0})⦄ where
  pub unwatch-stopping :
      (r : ActorRef) (c : Context) (h : Heap M) → (Context.unwatch r c h).0.stopping ≡ c.stopping
  unfolding Context.unwatch
  unwatch-stopping r c h = elim (Option-cases (Map.get r.actor_id c.watched)) [
    | inl e ↦ rw (e, Context.unwatch) refl
    | inr (registry, e) ↦ rw (e, Context.unwatch) refl
  ]

same_channels :
    {S : Type 0} (t : Task S) (c : Context)
    → c.stopping ≡ t.context.stopping
    → node_of (record t { context = c }) ≡ node_of t
same_channels t c e =
    ap
      (λ own. record {
        parent = t.parent_stopping_rx;
        own = own;
        channel = channel_of t.phase own;
        is_running = runs_in t.phase;
      })
      e

same_phase :
    {S : Type 0} (t : Task S) (phase : Phase S)
    → channel_of phase t.context.stopping ≡ channel_of t.phase t.context.stopping
    → runs_in phase ≡ runs_in t.phase
    → node_of (record t { phase = phase }) ≡ node_of t
same_phase t phase = ap₂ (λ ch r. record {
  parent = t.parent_stopping_rx;
  own = t.context.stopping;
  channel = ch;
  is_running = r;
})

module _ {M S : Type 0} ⦃flume : Flume (Incoming M)⦄ ⦃oneshot : Oneshot (Unit {0})⦄ ⦃watch : Watch⦄
    (root id : ℕ) where
  terminate-Keeps :
      (t : Task S) (w : World M S)
      → channel_of t.phase t.context.stopping ≡ t.context.stopping
      → runs_in t.phase ≡ true
      → Keeps root id (t, w)
      → Keeps root id (terminate t w)
  unfolding terminate take_watched stop_children
  terminate-Keeps t w whole runs v =
      let (drained, h) = drain (split t.mailbox).0 w.heap in
      let (watched, c) = take_watched t.context in
      let t' : Task S = record t { context = c } in
      let w' : World M S = record w {
        heap = deregister t.actor_id (values watched) h;
        log = messages_dropped t.actor_id (length drained) ∷ w.log;
      } in
      stop_children-Keeps root id t' w' (terminating t.context.stopping) whole runs refl refl
        (unseen root id t t' w w' refl refl refl refl v)

  becomes-Keeps :
      (t : Task S) (w : World M S) (phase : Phase S)
      → channel_of t.phase t.context.stopping ≡ t.context.stopping
      → runs_in t.phase ≡ true
      → IsActive phase
      → Keeps root id (t, w)
      → Keeps root id (record t { phase = phase }, w)
  becomes-Keeps t w phase whole runs active v =
      let (whole', runs') = active-channel phase t.context.stopping active in
      unseen root id t (record t { phase = phase }) w w
        (same_phase t phase (whole' ∙ sym whole) (runs' ∙ sym runs)) refl refl refl v

  Keeps-Kept : Kept {M = M} {S = S} (Keeps root id)
  unfolding Context.watch stop_children take_watched_for
  Keeps-Kept = record {
    told = λ t w r m v.
        unseen root id t t w (record w { heap = tell r m w.heap }) refl refl refl refl v;
    watched = λ t w r v.
        let (result, c, h) = Context.watch r t.context w.heap in
        unseen root id t (record t { context = c }) w (record w { heap = h }) refl refl refl refl v;
    unwatched = λ t w r v.
        let (c, h) = Context.unwatch r t.context w.heap in
        unseen root id t (record t { context = c }) w (record w { heap = h })
          (same_channels t c (unwatch-stopping r t.context w.heap)) refl refl refl v;
    spawned =
        λ t w behaviour config active v. spawn_child-Keeps root id t behaviour config w active v;
    taken = λ t w other v.
        unseen root id t (record t { context = (take_watched_for other t.context).1 }) w w refl refl
          refl refl v;
    counted = λ t w restarts v.
        unseen root id t (record t { restarts = restarts }) w w refl refl refl refl v;
    logged = λ t w event v.
        unseen root id t t w (record w { log = event ∷ w.log }) refl refl refl refl v;
    received = λ t w incoming h arrived v.
        unseen root id t t w (record w { heap = h }) refl refl refl refl v;
    becomes = becomes-Keeps;
    passes = λ t w phase runs left whole running free v.
        passes-Keeps root id t w phase runs left whole running v;
    restarts = λ t w delay whole runs v.
        stop_children-Keeps root id t w (stopping_children delay t.context.stopping) whole runs refl
          refl v;
    terminates = terminate-Keeps;
    finishes = finish-Keeps root id;
  }

  -- A poll keeps the invariant of the tree.
  pub poll-Keeps :
      (behaviours : ℕ → Behaviour M S) (now : Instant) (t : Task S) (w : World M S)
      → Keeps root id (t, w)
      → Keeps root id (poll behaviours now t w)
  poll-Keeps behaviours now t w v = poll-Kept (Keeps root id) Keeps-Kept behaviours now t w v
