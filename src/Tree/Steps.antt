-- ===== src/Tree/Steps.antt =====
-- waltz/src/actor_context.rs: every step keeps the invariant of the tree.
use waltz.Base.{
  ℕ, suc, ◌+◌, ◌<◌, ◌≡◌, ◌≢◌, refl, sym, ap, ◌∙◌, subst, inl, inr, true, false, none, some, of_some,
  ◌==◌, if◌then◌else◌, if-cases, arith,
}
use waltz.Tree.{Node, Tree, held_at, total, child, TreeStep, stays, spawns, stops, passes, ends}
use waltz.Tree.Total.{total_ext, held-le-total}
use waltz.Tree.Invariant.{Inv}
use waltz.Tree.Kept.{stays-Inv, unused, unheld, changes-Inv}

module _ (root : ℕ) (s s' : Tree) (v : Inv root s) where
  spawns-Inv :
      (id : ℕ) (n : Node)
      → s.nodes id ≡ some n
      → n.is_running ≡ true
      → n.channel ≡ n.own
      → s'.next ≡ s.next + 2
      → ((loc : ℕ)
          → s'.receivers loc ≡ (
              if s.next + 1 == loc
              then 1
              else (if n.own == loc then s.receivers loc + 2 else s.receivers loc)))
      → ((j : ℕ) → s'.nodes j ≡ (if s.next == j then some (child s n) else s.nodes j))
      → Inv root s'
  spawns-Inv id n at runs whole two more_receivers more_nodes = record {
    bounded = λ j k e. elim (if-cases s.next j (some (child s n)) (s.nodes j)) [
      | inl (is_new, e') ↦
          let same : child s n ≡ k = of_some (sym e' ∙ sym (more_nodes j) ∙ e) in
          let b = v.bounded id n at in
          subst (λ k. (j < s'.next) × (k.parent < s'.next) × (k.own < s'.next)) same
            (omega (arith, is_new, two), omega (arith, b.2, two), omega (arith, two))
      | inr (is_old, e') ↦
          let b = v.bounded j k (sym e' ∙ sym (more_nodes j) ∙ e) in
          (omega (arith, b.0, two), omega (arith, b.1, two), omega (arith, b.2, two))
    ];
    channels = λ loc.
        let parts =
          ap (λ k. total k s'.nodes loc) twice
          ∙ ap (λ o. held_at o loc + (held_at (s'.nodes s.next) loc + total s.next s'.nodes loc))
              above
          ∙ ap (λ o. 0 + (held_at o loc + total s.next s'.nodes loc)) new_node in
        let same =
          total_ext s.next s.nodes s'.nodes loc
            (λ j below. old_node j (λ e. omega (arith, e, below))) in
        let own_below = (v.bounded id n at).2 in
        elim (if-cases (s.next + 1) loc 1
          (if n.own == loc then s.receivers loc + 2 else s.receivers loc)) [
            | inl (is_new, e) ↦
                let zero_held = unheld root s s' v loc (omega (arith, is_new)) in
                more_receivers loc ∙ ground (arith, e, parts, same)
            | inr (is_old, e) ↦ more_receivers loc ∙ ground (arith, e, parts, same, v.channels loc)
          ];
    owned = λ j k e running. elim (if-cases s.next j (some (child s n)) (s.nodes j)) [
      | inl (is_new, e') ↦
          let same : child s n ≡ k = of_some (sym e' ∙ sym (more_nodes j) ∙ e) in
          inr (record {
            parent_id = id;
            parent_node = n;
            is_there = old_node id (λ e''. omega (arith, e'', (v.bounded id n at).0)) ∙ at;
            runs = runs;
            is_older = omega (arith, (v.bounded id n at).0, is_new);
            holds = whole ∙ ap (λ k. k.parent) same;
          })
      | inr (is_old, e') ↦ elim (v.owned j k (sym e' ∙ sym (more_nodes j) ∙ e) running) [
        | inl is_root ↦ inl is_root
        | inr p ↦ inr (record {
          parent_id = p.parent_id;
          parent_node = p.parent_node;
          is_there =
              old_node p.parent_id
                (λ e''. omega (arith, e'', (v.bounded p.parent_id p.parent_node p.is_there).0))
              ∙ p.is_there;
          runs = p.runs;
          is_older = p.is_older;
          holds = p.holds;
        })
      ]
    ];
  }
    where
      old_node : (j : ℕ) → s.next ≢ j → s'.nodes j ≡ s.nodes j
      old_node j ne = more_nodes j ∙ ground arith

      twice : s'.next ≡ suc (suc s.next)
      twice = omega (arith, two)

      new_node : s'.nodes s.next ≡ some (child s n)
      new_node = more_nodes s.next ∙ ground arith

      above : s'.nodes (suc s.next) ≡ none
      above =
          old_node (suc s.next) (λ e. omega (arith, e))
          ∙ unused root s s' v (suc s.next) (omega arith)

-- Every step keeps the invariant.
pub TreeStep-Inv : (root : ℕ) (s s' : Tree) → TreeStep s s' → Inv root s → Inv root s'
TreeStep-Inv root s s' (stays same_next same_receivers same_nodes) v =
    stays-Inv root s s' v same_next same_receivers same_nodes
TreeStep-Inv root s s' (spawns id n at runs whole two more_receivers more_nodes) v =
    spawns-Inv root s s' v id n at runs whole two more_receivers more_nodes
TreeStep-Inv root s s' (stops id n at runs whole one other_receivers other_nodes) v =
    changes-Inv root s s' v id n (record n { own = s.next; channel = n.own }) at runs refl
      (omega (arith, one)) (inr one)
      (λ loc.
        let part = held-le-total s.next id s.nodes n loc (v.bounded id n at).0 at in
        let all = v.channels loc in
        let own_below = (v.bounded id n at).2 in
        elim (if-cases s.next loc 1 (s.receivers loc)) [
          | inl (is_new, e) ↦
              let zero_held = unheld root s s' v loc (omega (arith, is_new)) in
              ground (arith, e, other_receivers loc)
          | inr (is_old, e) ↦ ground (arith, e, other_receivers loc)
        ])
      other_nodes (inl (runs, sym whole))
TreeStep-Inv root s s' (passes id n at runs left same_next same_receivers other_nodes) v =
    let b = v.bounded id n at in
    changes-Inv root s s' v id n (record n { channel = n.own }) at runs refl
      (omega (arith, b.2, same_next)) (inl same_next) (λ loc. ground (arith, same_receivers loc))
      other_nodes (inr left)
TreeStep-Inv root s s' (ends id n at runs left same_next fewer_receivers other_nodes) v =
    let b = v.bounded id n at in
    changes-Inv root s s' v id n (record n { channel = n.own; is_running = false }) at runs refl
      (omega (arith, b.2, same_next)) (inl same_next)
      (λ loc.
        let part = held-le-total s.next id s.nodes n loc (v.bounded id n at).0 at in
        omega (arith, fewer_receivers loc, part, v.channels loc))
      other_nodes (inr left)
