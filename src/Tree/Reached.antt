-- ===== src/Tree/Reached.antt =====
-- waltz/src/actor_system.rs and waltz/src/actor_context.rs: the worlds that a system reaches from
-- `spawn_root` by polls of its tasks, in any order, and by code outside of the actors.
use waltz.Base.{
  ℕ, ◌≡◌, refl, sym, ap, ◌∙◌, inl, inr, false, some, of_some, ◌==◌, if◌then◌else◌, Bool-cases,
  if-cases, arith, subst,
}
use waltz.Base.Cells.{update}
use waltz.Extern.Flume.{Flume}
use waltz.Extern.Oneshot.{Oneshot}
use waltz.Extern.Watch.{Watch}
use waltz.Actor.{Incoming}
use waltz.Config.{ActorConfig}
use waltz.Restart.{Instant}
use waltz.Memory.{Heap}
use waltz.World.{
  Behaviour, Phase, initializing, receiving, stopping_children, backing_off, terminating, finished,
  Task, World,
}
use waltz.RunLoop.{poll}
use waltz.System.{spawn_root}
use waltz.Tree.{stays}
use waltz.Tree.Invariant.{Inv, ends_last}
use waltz.Tree.Distinct.{Whole, TreeStep-Whole}
use waltz.RunLoop.Kept.{runs_in}
use waltz.Tree.Shape.{node_of, node_at, tree_of, shape}
use waltz.Tree.Changes.{node_at-if}
use waltz.Tree.Polls.{poll-Keeps}
use waltz.Tree.Root.{IsNew, root_world, spawn_root-Whole}

pub not_running : {S : Type 0} (p : Phase S) → runs_in p ≡ false → p ≡ finished
not_running initializing e = absurd (ground arith)
not_running (receiving state up_since) e = absurd (ground arith)
not_running (stopping_children delay old) e = absurd (ground arith)
not_running (backing_off until) e = absurd (ground arith)
not_running (terminating old) e = absurd (ground arith)
not_running finished e = refl

module _ {M S : Type 0} ⦃flume : Flume (Incoming M)⦄ ⦃oneshot : Oneshot (Unit {0})⦄
    ⦃watch : Watch⦄ where
  -- The runtime polls the task at `id`.
  unfoldable pub poll_task : (ℕ → Behaviour M S) → ℕ → Instant → Task S → World M S → World M S
  poll_task behaviours id now t w =
      let (t', w') = poll behaviours now t w in record w' { tasks = update w'.tasks id (some t') }

  -- Code outside of the actors holds references and asks: it changes the heap only.
  pub data Step (behaviours : ℕ → Behaviour M S) (w w' : World M S) : Type 0 where
    polls :
        (id : ℕ) (now : Instant) (t : Task S)
        → w.tasks id ≡ some t
        → w' ≡ poll_task behaviours id now t w
        → Step behaviours w w'
    outside : (h : Heap M) → w' ≡ record w { heap = h } → Step behaviours w w'

  pub data Reached (behaviours : ℕ → Behaviour M S) (first : World M S) : World M S → Type 0 where
    starts : Reached behaviours first first
    goes_on :
        {w w' : World M S}
        → Reached behaviours first w
        → Step behaviours w w'
        → Reached behaviours first w'

  poll_task-Whole :
      (root : ℕ) (behaviours : ℕ → Behaviour M S) (id : ℕ) (now : Instant) (t : Task S)
      (w : World M S)
      → w.tasks id ≡ some t
      → Whole root (tree_of w)
      → Whole root (tree_of (poll_task behaviours id now t w))
  unfolding poll_task
  poll_task-Whole root behaviours id now t w at v =
      let (t', w') = poll behaviours now t w in
      let v' = TreeStep-Whole root (tree_of w) (shape id t w) (stays refl (λ loc. refl) taken) v in
      TreeStep-Whole root (shape id t' w') _
        (stays refl (λ loc. refl) (λ j. node_at-if id j (some t') (w'.tasks j)))
        (poll-Keeps root id behaviours now t w v')
    where
      taken :
          (j : ℕ)
          → (if id == j then some (node_of t) else node_at (w.tasks j)) ≡ node_at (w.tasks j)
      taken j = elim (if-cases id j (some (node_of t)) (node_at (w.tasks j))) [
        | inl (same, e) ↦ e ∙ sym (ap node_at (ap w.tasks (sym same) ∙ at))
        | inr (differs, e) ↦ e
      ]

  Step-Whole :
      (root : ℕ) (behaviours : ℕ → Behaviour M S) (w w' : World M S)
      → Step behaviours w w'
      → Whole root (tree_of w)
      → Whole root (tree_of w')
  Step-Whole root behaviours w w' (polls id now t at e) v =
      subst (λ w'. Whole root (tree_of w')) (sym e)
        (poll_task-Whole root behaviours id now t w at v)
  Step-Whole root behaviours w w' (outside h e) v =
      subst (λ w'. Whole root (tree_of w')) (sym e)
        (TreeStep-Whole root (tree_of w) _ (stays refl (λ loc. refl) (λ j. refl)) v)

  module _ (behaviours : ℕ → Behaviour M S) (behaviour : ℕ) (config : ActorConfig)
      (first : World M S) where
    abbrev root_id : ℕ
    root_id = (spawn_root behaviour config first).0.root.actor_id

    pub Reached-Whole :
        (w : World M S)
        → IsNew first
        → Reached behaviours (root_world behaviour config first) w
        → Whole root_id (tree_of w)
    Reached-Whole w new starts = spawn_root-Whole behaviour config first new
    Reached-Whole w new (goes_on {w = before} reached step) =
        Step-Whole root_id behaviours before w step (Reached-Whole before new reached)

    -- In every world that the system reaches from `spawn_root` in a new world, the invariant of the tree
    -- holds: the receivers of each stop channel are exactly those that the tasks not yet finished have,
    -- and such a task other than the root has an older parent, not finished, whose channel it holds.
    pub Reached-Inv :
        (w : World M S)
        → IsNew first
        → Reached behaviours (root_world behaviour config first) w
        → Inv root_id (tree_of w)
    Reached-Inv w new reached = (Reached-Whole w new reached).inv

    -- The root ends last: once its task is finished, every task of the system is.
    pub root_ends_last :
        (w : World M S) (root t : Task S) (id : ℕ)
        → IsNew first
        → Reached behaviours (root_world behaviour config first) w
        → w.tasks root_id ≡ some root
        → root.phase ≡ finished
        → w.tasks id ≡ some t
        → t.phase ≡ finished
    root_ends_last w root t id new reached at ended there = elim (Bool-cases (runs_in t.phase)) [
      | inr over ↦ not_running t.phase over
      | inl runs ↦
          let (r, here, running) =
            ends_last root_id (tree_of w) id (node_of t) (Reached-Inv w new reached)
              (ap node_at there) runs in
          let same : node_of root ≡ r = of_some (sym (ap node_at at) ∙ here) in
          let stopped : r.is_running ≡ false =
            sym (ap (λ n. n.is_running) same) ∙ ap runs_in ended in
          absurd (ground arith)
    ]
