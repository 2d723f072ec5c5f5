-- ===== src/Tree/Invariant.antt =====
-- waltz/src/actor_context.rs: the invariant of the tree, and that the root ends last.
use waltz.Base.{ℕ, zero, suc, ◌<◌, ◌≡◌, sym, ap, ◌∙◌, ◌⊎◌, inl, inr, true, some, arith}
use waltz.Tree.{Node, Tree, total}

-- A running node other than the root has a running parent, which is older and whose channel it holds.
pub record Parented (s : Tree) (id : ℕ) (n : Node) : Type 0 where
  pub parent_id : ℕ
  pub parent_node : Node
  pub is_there : s.nodes parent_id ≡ some parent_node
  pub runs : parent_node.is_running ≡ true
  pub is_older : parent_id < id
  pub holds : parent_node.channel ≡ n.parent

-- `channels` says that the receivers of every channel are those that running nodes have.
pub record Inv (root : ℕ) (s : Tree) : Type 0 where
  pub bounded :
      (id : ℕ) (n : Node)
      → s.nodes id ≡ some n
      → (id < s.next) × (n.parent < s.next) × (n.own < s.next)
  pub channels : (loc : ℕ) → s.receivers loc ≡ total s.next s.nodes loc
  pub owned :
      (id : ℕ) (n : Node)
      → s.nodes id ≡ some n
      → n.is_running ≡ true
      → (id ≡ root) ⊎ Parented s id n

-- While any node runs, the root runs.
root_runs :
    (root fuel : ℕ) (s : Tree) (id : ℕ) (n : Node)
    → Inv root s
    → id < fuel
    → s.nodes id ≡ some n
    → n.is_running ≡ true
    → (r : Node) × (s.nodes root ≡ some r) × (r.is_running ≡ true)
root_runs root zero s id n v below at runs = absurd (omega arith)
root_runs root (suc fuel) s id n v below at runs = elim (v.owned id n at runs) [
  | inl is_root ↦ (n, ap s.nodes (sym is_root) ∙ at, runs)
  | inr p ↦
      root_runs root fuel s p.parent_id p.parent_node v (omega (arith, p.is_older)) p.is_there
        p.runs
]

pub ends_last :
    (root : ℕ) (s : Tree) (id : ℕ) (n : Node)
    → Inv root s
    → s.nodes id ≡ some n
    → n.is_running ≡ true
    → (r : Node) × (s.nodes root ≡ some r) × (r.is_running ≡ true)
ends_last root s id n v at runs = root_runs root (suc id) s id n v (omega arith) at runs
