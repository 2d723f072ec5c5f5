-- ===== src/Tree.antt =====
-- waltz/src/actor_context.rs: the tree of actors, as the stop channels of `ActorContext` hold it
-- together. A node is what counts of a task, and the steps are those of the tree.
pub mod Total
pub mod Invariant
pub mod Kept
pub mod Steps
pub mod Shape
pub mod Distinct
pub mod Changes
pub mod Moves
pub mod Polls
pub mod Root
pub mod Reached
pub mod Awaiting
use waltz.Base.{
  ℕ, zero, suc, ◌+◌, ◌-◌, ◌<◌, ◌≡◌, ◌⊎◌, Bool, true, false, Option, none, some, ◌==◌, if◌then◌else◌,
}

-- `parent` is the parent's stop channel, of which a running task has two receivers, `own` the
-- channel in its context, of which it has one. Its children have receivers of `channel`: that is
-- `own`, but for the `await` behind `stop_children` that of the generation before.
pub record Node : Type 0 where
  pub parent : ℕ
  pub own : ℕ
  pub channel : ℕ
  pub is_running : Bool

pub record Tree : Type 0 where
  pub next : ℕ
  pub receivers : ℕ → ℕ
  pub nodes : ℕ → Option Node

-- The receivers of the channel `loc` that a node has.
abbrev pub held : Node → ℕ → ℕ
held n loc =
    if n.is_running then (if n.parent == loc then 2 else 0) + (if n.own == loc then 1 else 0) else 0

abbrev pub held_at : Option Node → ℕ → ℕ
held_at none loc = 0
held_at (some n) loc = held n loc

-- The receivers that the first `k` nodes have.
abbrev pub total : ℕ → (ℕ → Option Node) → ℕ → ℕ
total zero nodes loc = 0
total (suc k) nodes loc = held_at (nodes k) loc + total k nodes loc

abbrev pub child : Tree → Node → Node
child s n = record { parent = n.own; own = s.next + 1; channel = s.next + 1; is_running = true }

-- One step, which is given by what it makes of each cell.
pub data TreeStep (s s' : Tree) : Type 0 where
  stays :
      s'.next ≡ s.next
      → ((loc : ℕ) → s'.receivers loc ≡ s.receivers loc)
      → ((j : ℕ) → s'.nodes j ≡ s.nodes j)
      → TreeStep s s'
  -- `spawn_with_config`, by an actor whose code runs.
  spawns :
      (id : ℕ) (n : Node)
      → s.nodes id ≡ some n
      → n.is_running ≡ true
      → n.channel ≡ n.own
      → s'.next ≡ s.next + 2
      → ((loc : ℕ)
          → s'.receivers loc ≡ (
              if s.next + 1 == loc
              then 1
              else (if n.own == loc then s.receivers loc + 2 else s.receivers loc)))
      → ((j : ℕ) → s'.nodes j ≡ (if s.next == j then some (child s n) else s.nodes j))
      → TreeStep s s'
  -- `stop_children`, before its `await`.
  stops :
      (id : ℕ) (n : Node)
      → s.nodes id ≡ some n
      → n.is_running ≡ true
      → n.channel ≡ n.own
      → s'.next ≡ s.next + 1
      → ((loc : ℕ)
          → s'.receivers loc ≡ (
              if n.own == loc
              then s.receivers loc - 1
              else (if s.next == loc then 1 else s.receivers loc)))
      → ((j : ℕ)
          → s'.nodes j
            ≡ (if id == j then some (record n { own = s.next; channel = n.own }) else s.nodes j))
      → TreeStep s s'
  -- Behind the `await`: no child is left.
  passes :
      (id : ℕ) (n : Node)
      → s.nodes id ≡ some n
      → n.is_running ≡ true
      → s.receivers n.channel ≡ 0
      → s'.next ≡ s.next
      → ((loc : ℕ) → s'.receivers loc ≡ s.receivers loc)
      → ((j : ℕ)
          → s'.nodes j ≡ (if id == j then some (record n { channel = n.own }) else s.nodes j))
      → TreeStep s s'
  -- The end of a task, behind the `await` of `terminate`.
  ends :
      (id : ℕ) (n : Node)
      → s.nodes id ≡ some n
      → n.is_running ≡ true
      → s.receivers n.channel ≡ 0
      → s'.next ≡ s.next
      → ((loc : ℕ) → s'.receivers loc ≡ s.receivers loc - held n loc)
      → ((j : ℕ)
          → s'.nodes j ≡ (
              if id == j
              then some (record n { channel = n.own; is_running = false })
              else s.nodes j))
      → TreeStep s s'
