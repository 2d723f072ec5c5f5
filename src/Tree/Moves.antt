-- ===== src/Tree/Moves.antt =====
-- waltz/src/actor_context.rs: what a task does to the tree is a step of the tree.
use waltz.Base.{ℕ, ◌+◌, ◌≡◌, refl, sym, ap, ◌∙◌, true, some, ◌==◌, if◌then◌else◌, arith, ap₂}
use waltz.Extern.Flume.{Flume}
use waltz.Extern.Oneshot.{Oneshot}
use waltz.Extern.Watch.{Watch}
use waltz.Actor.{Incoming}
use waltz.Context
use waltz.Context.{Context, take_watched, take_watched_for}
use waltz.Reference.{new_self}
use waltz.Config.{ActorConfig}
use waltz.World.{Phase, Task, World, spawn, spawn_child, stop_children}
use waltz.RunLoop.Terminate.{finish}
use waltz.Tree.{Node, stays, spawns, stops, passes, ends}
use waltz.Tree.Distinct.{Whole, TreeStep-Whole}
use waltz.RunLoop.Kept.{channel_of, runs_in, IsActive, active-channel}
use waltz.Tree.Shape.{node_of, node_at, shape}
use waltz.Tree.Changes.{swap_changes, replaced, dropped, cloned_twice, stopped, node_at-if}

module _ {M S : Type 0} ⦃flume : Flume (Incoming M)⦄ ⦃oneshot : Oneshot (Unit {0})⦄ ⦃watch : Watch⦄
    (root id : ℕ) where
  abbrev pub Keeps : Task S × World M S → Type 0
  Keeps (t, w) = Whole root (shape id t w)

  pub here : (t : Task S) (w : World M S) → (shape id t w).nodes id ≡ some (node_of t)
  here t w = ground arith

  -- What the tree does not see.
  pub unseen :
      (t t' : Task S) (w w' : World M S)
      → node_of t' ≡ node_of t
      → w'.next ≡ w.next
      → w'.stops ≡ w.stops
      → w'.tasks ≡ w.tasks
      → Keeps (t, w)
      → Keeps (t', w')
  unseen t t' w w' same_node same_next same_stops same_tasks v =
      TreeStep-Whole root (shape id t w) (shape id t' w')
        (stays same_next (λ loc. ap (λ s. watch.receivers (s loc)) same_stops)
          (λ j.
            ap₂ (λ (n : Node) ts. if id == j then some n else node_at (ts j)) same_node same_tasks))
        v

  pub spawn_child-Keeps :
      (t : Task S) (behaviour : ℕ) (config : ActorConfig) (w : World M S)
      → IsActive t.phase
      → Keeps (t, w)
      → Keeps (t, (spawn_child t.context behaviour config w).1)
  unfolding spawn_child spawn new_self Context.new
  spawn_child-Keeps t behaviour config w active v =
      let (whole, runs) = active-channel t.phase t.context.stopping active in
      let below = (v.inv.bounded id (node_of t) (here t w)).0 in
      let own_below = (v.inv.bounded id (node_of t) (here t w)).2 in
      TreeStep-Whole root (shape id t w) (shape id t (spawn_child t.context behaviour config w).1)
        (spawns id (node_of t) (here t w) runs whole refl
          (cloned_twice w.stops t.context.stopping (w.next + 1))
          (λ j.
            ap (λ o. if id == j then some (node_of t) else o) (node_at-if w.next j _ (w.tasks j))
            ∙ swap_changes id w.next j (some (node_of t)) _ (node_at (w.tasks j))
                (λ e. omega (arith, e, below))))
        v

  pub stop_children-Keeps :
      (t : Task S) (w : World M S) (phase : Phase S)
      → channel_of t.phase t.context.stopping ≡ t.context.stopping
      → runs_in t.phase ≡ true
      → channel_of phase w.next ≡ t.context.stopping
      → runs_in phase ≡ true
      → Keeps (t, w)
      → let (old, c, w') = stop_children t.context w in
        Keeps (record t { context = c; phase = phase }, w')
  unfolding stop_children
  stop_children-Keeps t w phase whole runs at running v =
      TreeStep-Whole root (shape id t w) _
        (stops id (node_of t) (here t w) runs whole refl (stopped w.stops t.context.stopping w.next)
          (λ j. replaced id j _ _ (some (node_of t)) (node_at (w.tasks j)) (
            ap₂
              (λ ch r. some (record {
                parent = t.parent_stopping_rx;
                own = w.next;
                channel = ch;
                is_running = r;
              }))
              at (running ∙ sym runs))))
        v

  -- `passes`: the task goes on from an `await` behind which no child is left.
  pub passes-Keeps :
      (t : Task S) (w : World M S) (phase : Phase S)
      → runs_in t.phase ≡ true
      → watch.receivers (w.stops (channel_of t.phase t.context.stopping)) ≡ 0
      → channel_of phase t.context.stopping ≡ t.context.stopping
      → runs_in phase ≡ true
      → Keeps (t, w)
      → Keeps (record t { phase = phase }, w)
  passes-Keeps t w phase runs left whole running v =
      TreeStep-Whole root (shape id t w) (shape id (record t { phase = phase }) w)
        (passes id (node_of t) (here t w) runs left refl (λ loc. refl)
          (λ j. replaced id j _ _ (some (node_of t)) (node_at (w.tasks j)) (
            ap₂
              (λ ch r. some (record {
                parent = t.parent_stopping_rx;
                own = t.context.stopping;
                channel = ch;
                is_running = r;
              }))
              whole (running ∙ sym runs))))
        v

  pub finish-Keeps :
      (t : Task S) (w : World M S)
      → runs_in t.phase ≡ true
      → watch.receivers (w.stops (channel_of t.phase t.context.stopping)) ≡ 0
      → Keeps (t, w)
      → Keeps (finish t w)
  unfolding finish
  finish-Keeps t w runs left v =
      TreeStep-Whole root (shape id t w) _
        (ends id (node_of t) (here t w) runs left refl
          (λ loc. dropped w.stops t.parent_stopping_rx t.context.stopping loc ∙ rw runs refl)
          (λ j. replaced id j _ _ (some (node_of t)) (node_at (w.tasks j)) refl))
        v
