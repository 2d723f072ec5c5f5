-- ===== src/Tree/Kept.antt =====
-- waltz/src/actor_context.rs: what a change of one node keeps of the tree.
use waltz.Base.{
  ℕ, ◌+◌, ◌≤◌, ◌<◌, ◌≡◌, ◌≢◌, refl, sym, ap, ◌∙◌, subst, ◌⊎◌, inl, inr, true, none, some, of_some,
  ◌==◌, if◌then◌else◌, Option-cases, if-cases, arith, ℕ_discrete,
}
use waltz.Tree.{Node, Tree, held, held_at, total}
use waltz.Tree.Total.{total_ext, total_change, total_none, total_zero, held-le-total}
use waltz.Tree.Invariant.{Parented, Inv}

module _ (root : ℕ) (s s' : Tree) (v : Inv root s) where
  pub stays-Inv :
      s'.next ≡ s.next
      → ((loc : ℕ) → s'.receivers loc ≡ s.receivers loc)
      → ((j : ℕ) → s'.nodes j ≡ s.nodes j)
      → Inv root s'
  stays-Inv same_next same_receivers same_nodes = record {
    bounded = λ id n e.
        let b = v.bounded id n (sym (same_nodes id) ∙ e) in
        (
          omega (arith, b.0, same_next),
          omega (arith, b.1, same_next),
          omega (arith, b.2, same_next),
        );
    channels = λ loc.
        same_receivers loc
        ∙ v.channels loc
        ∙ sym (total_ext s.next s.nodes s'.nodes loc (λ j below. same_nodes j))
        ∙ ap (λ k. total k s'.nodes loc) (sym same_next);
    owned = λ id n e runs. elim (v.owned id n (sym (same_nodes id) ∙ e) runs) [
      | inl is_root ↦ inl is_root
      | inr p ↦ inr (record {
        parent_id = p.parent_id;
        parent_node = p.parent_node;
        is_there = same_nodes p.parent_id ∙ p.is_there;
        runs = p.runs;
        is_older = p.is_older;
        holds = p.holds;
      })
    ];
  }

  -- Nothing lies at the locations from the next one on.
  pub unused : (j : ℕ) → s.next ≤ j → s.nodes j ≡ none
  unused j above = elim (Option-cases (s.nodes j)) [
    | inl e ↦ e
    | inr (m, e) ↦ absurd (omega (arith, (v.bounded j m e).0, above))
  ]

  pub unheld : (loc : ℕ) → s.next ≤ loc → total s.next s.nodes loc ≡ 0
  unheld loc above =
      total_zero s.next s.nodes loc
        (λ j n below e. let b = v.bounded j n e in ground (arith, b.1, b.2))

  -- No running node has the parent's channel `ch` if that has no receivers.
  detached :
      (ch j : ℕ) (m : Node)
      → s.receivers ch ≡ 0
      → s.nodes j ≡ some m
      → m.is_running ≡ true
      → ch ≢ m.parent
  detached ch j m left e runs same =
      let part = held-le-total s.next j s.nodes m ch (v.bounded j m e).0 e in
      let all = v.channels ch in ground arith

  -- A change of one node that keeps its parent.
  pub changes-Inv :
      (id : ℕ) (n m : Node)
      → s.nodes id ≡ some n
      → n.is_running ≡ true
      → m.parent ≡ n.parent
      → m.own < s'.next
      → (s'.next ≡ s.next) ⊎ (s'.next ≡ s.next + 1)
      → ((loc : ℕ) → s'.receivers loc + held n loc ≡ s.receivers loc + held m loc)
      → ((j : ℕ) → s'.nodes j ≡ (if id == j then some m else s.nodes j))
      → ((m.is_running ≡ true) × (m.channel ≡ n.channel)) ⊎ (s.receivers n.channel ≡ 0)
      → Inv root s'
  changes-Inv id n m at runs same_parent own_below grown other_receivers other_nodes kept = record {
    bounded = λ j k e. elim (if-cases id j (some m) (s.nodes j)) [
      | inl (here, e') ↦
          let same : m ≡ k = of_some (sym e' ∙ sym (other_nodes j) ∙ e) in
          let b = v.bounded id n at in
          subst (λ k. (j < s'.next) × (k.parent < s'.next) × (k.own < s'.next)) same
            (omega (arith, b.0, here, le), omega (arith, b.1, same_parent, le), own_below)
      | inr (elsewhere, e') ↦
          let b = v.bounded j k (sym e' ∙ sym (other_nodes j) ∙ e) in
          (omega (arith, b.0, le), omega (arith, b.1, le), omega (arith, b.2, le))
    ];
    channels = λ loc.
        let change = total_change s.next id s.nodes s'.nodes loc (v.bounded id n at).0 elsewhere in
        let before = ap (λ o. held_at o loc) at in
        let behind = ap (λ o. held_at o loc) here in
        omega (arith, change, before, behind, other_receivers loc, v.channels loc, grown_total loc);
    owned = λ j k e runs'. elim (if-cases id j (some m) (s.nodes j)) [
      | inl (at_id, e') ↦
          let same : m ≡ k = of_some (sym e' ∙ sym (other_nodes j) ∙ e) in
          moved j n k (subst (λ i. s.nodes i ≡ some n) at_id at) runs
            (sym same_parent ∙ ap (λ k. k.parent) same)
      | inr (away, e') ↦ moved j k k (sym e' ∙ sym (other_nodes j) ∙ e) runs' refl
    ];
  }
    where
      le : s.next ≤ s'.next
      le = elim grown [ inl e ↦ omega (arith, e) | inr e ↦ omega (arith, e) ]

      here : s'.nodes id ≡ some m
      here = other_nodes id ∙ ground arith

      elsewhere : (j : ℕ) → id ≢ j → s'.nodes j ≡ s.nodes j
      elsewhere j ne = other_nodes j ∙ ground arith

      grown_total : (loc : ℕ) → total s'.next s'.nodes loc ≡ total s.next s'.nodes loc
      grown_total loc = elim grown [
        | inl e ↦ ap (λ k. total k s'.nodes loc) e
        | inr e ↦
            ap (λ k. total k s'.nodes loc) e
            ∙ total_none s.next s'.nodes loc (
                elsewhere s.next (λ e'. omega (arith, e', (v.bounded id n at).0))
                ∙ unused s.next (omega arith))
      ]

      moved :
          (j : ℕ) (k k' : Node)
          → s.nodes j ≡ some k
          → k.is_running ≡ true
          → k.parent ≡ k'.parent
          → (j ≡ root) ⊎ Parented s' j k'
      moved j k k' e running to = elim (v.owned j k e running) [
        | inl is_root ↦ inl is_root
        | inr p ↦ elim (ℕ_discrete id p.parent_id) [
          | no ne ↦ inr (record {
            parent_id = p.parent_id;
            parent_node = p.parent_node;
            is_there = elsewhere p.parent_id ne ∙ p.is_there;
            runs = p.runs;
            is_older = p.is_older;
            holds = p.holds ∙ to;
          })
          | yes same ↦
              let parent_is : p.parent_node ≡ n =
                of_some (sym p.is_there ∙ ap s.nodes (sym same) ∙ at) in
              let holds : n.channel ≡ k.parent = ap (λ x. x.channel) (sym parent_is) ∙ p.holds in
              elim kept [
                | inl (still, whole) ↦ inr (record {
                  parent_id = id;
                  parent_node = m;
                  is_there = here;
                  runs = still;
                  is_older = omega (arith, p.is_older, same);
                  holds = whole ∙ holds ∙ to;
                })
                | inr left ↦ absurd (detached n.channel j k left e running holds)
              ]
        ]
      ]
