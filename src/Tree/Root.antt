-- ===== src/Tree/Root.antt =====
-- waltz/src/actor_system.rs: the tree behind `spawn_root`.
use waltz.Base.{
  ℕ, ◌+◌, ◌<◌, ◌≡◌, ◌≢◌, refl, sym, ap, ◌∙◌, inl, inr, true, Option, none, some, of_some, ◌==◌,
  if◌then◌else◌, Bool-cases, if-cases, arith, subst,
}
use waltz.Base.Cells.{update_self}
use waltz.Extern.Flume.{Flume}
use waltz.Extern.Oneshot.{Oneshot}
use waltz.Extern.Watch.{Watch}
use waltz.Actor.{Incoming}
use waltz.Config.{ActorConfig}
use waltz.Context
use waltz.Reference.{new_self}
use waltz.World.{World, spawn}
use waltz.System.{spawn_root}
use waltz.Tree.{Node, Tree, held_at}
use waltz.Tree.Total.{total_change, total_zero}
use waltz.Tree.Invariant.{Inv}
use waltz.Tree.Distinct.{Distinct, Whole}
use waltz.Tree.Shape.{node_at, tree_of}
use waltz.Tree.Changes.{node_at-if}

none_is_not_some : {P : Type 0} {n : Node} (o : Option Node) → o ≡ none → o ≡ some n → P
none_is_not_some o is_none is_some = absurd (ground arith)

abbrev root_node : ℕ → Node
root_node next = record {
  parent = next + 1;
  own = next + 2 + 1;
  channel = next + 2 + 1;
  is_running = true;
}

-- A tree of one node, whose three receivers are those it has.
pub one_node-Inv :
    (next : ℕ) (s : Tree)
    → s.next ≡ next + 4
    → ((loc : ℕ)
        → s.receivers loc ≡ (if next + 2 + 1 == loc then 1 else (if next + 1 == loc then 2 else 0)))
    → ((j : ℕ) → s.nodes j ≡ (if next + 2 == j then some (root_node next) else none))
    → Inv (next + 2) s
one_node-Inv next s same_next same_receivers same_nodes = record {
  bounded = λ j n e.
      let (at, same) = only j n e in
      subst (λ n. (j < s.next) × (n.parent < s.next) × (n.own < s.next)) same
        (omega (arith, at, same_next), omega (arith, same_next), omega (arith, same_next));
  channels = λ loc.
      let change =
        total_change s.next (next + 2) (λ j. none) s.nodes loc (omega (arith, same_next))
          elsewhere in
      let empty = total_zero s.next (λ j. none) loc (λ j n below e. none_is_not_some none refl e) in
      let new = ap (λ o. held_at o loc) (same_nodes (next + 2) ∙ here) in
      same_receivers loc ∙ ground (arith, change, empty, new);
  owned = λ j n e runs. inl (sym (only j n e).0);
}
  where
    here : (if next + 2 == next + 2 then some (root_node next) else none) ≡ some (root_node next)
    here = ground arith

    elsewhere : (j : ℕ) → next + 2 ≢ j → s.nodes j ≡ none
    elsewhere j ne = same_nodes j ∙ ground arith

    only : (j : ℕ) (n : Node) → s.nodes j ≡ some n → (next + 2 ≡ j) × (root_node next ≡ n)
    only j n e = elim (if-cases (next + 2) j (some (root_node next)) none) [
      | inl (at, e') ↦ (at, of_some (sym e' ∙ sym (same_nodes j) ∙ e))
      | inr (away, e') ↦ none_is_not_some (s.nodes j) (same_nodes j ∙ e') e
    ]

one_node-Distinct :
    (next : ℕ) (s : Tree)
    → s.next ≡ next + 4
    → ((j : ℕ) → s.nodes j ≡ (if next + 2 == j then some (root_node next) else none))
    → Distinct s
one_node-Distinct next s same_next same_nodes = record {
  below = λ i n e.
      let (at, same) = only i n e in
      subst (λ n. (n.own < s.next) × (n.channel < s.next)) same
        (omega (arith, same_next), omega (arith, same_next));
  distinct = λ i j n m e f ne. absurd (ne (sym (only i n e).0 ∙ (only j m f).0));
  retired = λ i j n m e f differs.
      absurd (differs (ap (λ n. n.channel) (sym (only i n e).1) ∙ ap (λ n. n.own) (only i n e).1));
}
  where
    only : (j : ℕ) (n : Node) → s.nodes j ≡ some n → (next + 2 ≡ j) × (root_node next ≡ n)
    only j n e = elim (if-cases (next + 2) j (some (root_node next)) none) [
      | inl (at, e') ↦ (at, of_some (sym e' ∙ sym (same_nodes j) ∙ e))
      | inr (away, e') ↦ none_is_not_some (s.nodes j) (same_nodes j ∙ e') e
    ]

module _ {M S : Type 0} ⦃flume : Flume (Incoming M)⦄ ⦃oneshot : Oneshot (Unit {0})⦄
    ⦃watch : Watch⦄ where
  -- No task and no receiver yet.
  pub record IsNew (w : World M S) : Type 0 where
    pub no_task : (j : ℕ) → w.tasks j ≡ none
    pub no_receiver : (loc : ℕ) → watch.receivers (w.stops loc) ≡ 0

  abbrev pub root_world : ℕ → ActorConfig → World M S → World M S
  root_world behaviour config w = (spawn_root behaviour config w).2

  pub spawn_root-Whole :
      (behaviour : ℕ) (config : ActorConfig) (w : World M S)
      → IsNew w
      → Whole
          (spawn_root behaviour config w).0.root.actor_id
          (tree_of (root_world behaviour config w))
  unfolding spawn_root spawn new_self Context.new
  spawn_root-Whole behaviour config w new = record {
    inv = one_node-Inv w.next _ (omega arith) receivers nodes;
    distinct = one_node-Distinct w.next _ (omega arith) nodes;
  }
    where
      receivers :
          (loc : ℕ)
          → watch.receivers ((root_world behaviour config w).stops loc)
            ≡ (if w.next + 2 + 1 == loc then 1 else (if w.next + 1 == loc then 2 else 0))
      receivers loc = elim (Bool-cases (w.next + 2 + 1 == loc)) [
        | inl own ↦ rw own watch.receivers-channel
        | inr other ↦ rw other (elim (Bool-cases (w.next + 1 == loc)) [
          | inl parent ↦ rw parent (
              watch.receivers-clone _
              ∙ ap (λ c. watch.receivers c + 1) (update_self w.stops (w.next + 1) watch.channel)
              ∙ ap (λ n. n + 1) watch.receivers-channel)
          | inr away ↦ rw away (new.no_receiver loc)
        ])
      ]

      nodes :
          (j : ℕ)
          → node_at ((root_world behaviour config w).tasks j)
            ≡ (if w.next + 2 == j then some (root_node w.next) else none)
      nodes j =
          node_at-if (w.next + 2) j _ (w.tasks j)
          ∙ ap (λ o. if w.next + 2 == j then some (root_node w.next) else node_at o) (new.no_task j)
