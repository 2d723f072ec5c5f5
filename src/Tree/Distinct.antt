-- ===== src/Tree/Distinct.antt =====
-- waltz/src/actor_context.rs: each context has a channel of its own, and none has one that is awaited.
use waltz.Base.{
  ℕ, zero, suc, ◌+◌, ◌≤◌, ◌<◌, ◌≡◌, ◌≢◌, refl, sym, ap, ◌∙◌, subst, ◌⊎◌, inl, inr, true, false,
  Option, some, of_some, ◌==◌, if◌then◌else◌, Bool-cases, Option-cases, if-cases, arith,
}
use waltz.Tree.{
  Node, Tree, held, held_at, total, child, TreeStep, stays, spawns, stops, passes, ends,
}
use waltz.Tree.Invariant.{Inv}
use waltz.Tree.Steps.{TreeStep-Inv}

pub record Distinct (s : Tree) : Type 0 where
  pub below : (i : ℕ) (n : Node) → s.nodes i ≡ some n → (n.own < s.next) × (n.channel < s.next)
  pub distinct :
      (i j : ℕ) (n m : Node) → s.nodes i ≡ some n → s.nodes j ≡ some m → i ≢ j → n.own ≢ m.own
  pub retired :
      (i j : ℕ) (n m : Node)
      → s.nodes i ≡ some n
      → s.nodes j ≡ some m
      → n.channel ≢ n.own
      → m.own ≢ n.channel

module _ (s s' : Tree) (v : Distinct s) (k : ℕ) (x : Node) where
  -- A node that is new or changed.
  writes-Distinct :
      s.next ≤ s'.next
      → ((j : ℕ) → s'.nodes j ≡ (if k == j then some x else s.nodes j))
      → (x.own < s'.next) × (x.channel < s'.next)
      → ((j : ℕ) (m : Node) → s.nodes j ≡ some m → k ≢ j → x.own ≢ m.own)
      → ((j : ℕ) (m : Node) → s.nodes j ≡ some m → k ≢ j → x.channel ≢ x.own → m.own ≢ x.channel)
      → ((i : ℕ) (n : Node) → s.nodes i ≡ some n → k ≢ i → n.channel ≢ n.own → x.own ≢ n.channel)
      → Distinct s'
  writes-Distinct grown written x_below apart before behind = record {
    below = λ i n e. elim (cases i n e) [
      | inl (here, same) ↦ subst (λ y. (y.own < s'.next) × (y.channel < s'.next)) same x_below
      | inr (away, e') ↦
          let b = v.below i n e' in (omega (arith, b.0, grown), omega (arith, b.1, grown))
    ];
    distinct = λ i j n m e f ne. elim (cases i n e) [
      | inl (here, same) ↦ elim (cases j m f) [
        | inl (here', same') ↦ absurd (ne (sym here ∙ here'))
        | inr (away', f') ↦ λ equal. apart j m f' away' (ap (λ y. y.own) same ∙ equal)
      ]
      | inr (away, e') ↦ elim (cases j m f) [
        | inl (here', same') ↦ λ equal. apart i n e' away (ap (λ y. y.own) same' ∙ sym equal)
        | inr (away', f') ↦ v.distinct i j n m e' f' ne
      ]
    ];
    retired = λ i j n m e f ne. elim (cases i n e) [
      | inl (here, same) ↦ elim (cases j m f) [
        | inl (here', same') ↦ λ equal. ne (sym equal ∙ ap (λ y. y.own) (sym same' ∙ same))
        | inr (away', f') ↦ λ equal.
            before j m f' away'
              (λ whole. ne (ap (λ y. y.channel) (sym same) ∙ whole ∙ ap (λ y. y.own) same))
              (equal ∙ ap (λ y. y.channel) (sym same))
      ]
      | inr (away, e') ↦ elim (cases j m f) [
        | inl (here', same') ↦ λ equal. behind i n e' away ne (ap (λ y. y.own) same' ∙ equal)
        | inr (away', f') ↦ v.retired i j n m e' f' ne
      ]
    ];
  }
    where
      cases :
          (j : ℕ) (n : Node)
          → s'.nodes j ≡ some n
          → ((k ≡ j) × (x ≡ n)) ⊎ ((k ≢ j) × (s.nodes j ≡ some n))
      cases j n e = elim (if-cases k j (some x) (s.nodes j)) [
        | inl (here, e') ↦ inl (here, of_some (sym e' ∙ sym (written j) ∙ e))
        | inr (away, e') ↦ inr (away, sym e' ∙ sym (written j) ∙ e)
      ]

  -- The end of a generation of children.
  passes-Distinct :
      (n : Node)
      → s.nodes k ≡ some n
      → x.own ≡ n.own
      → x.channel ≡ n.own
      → s'.next ≡ s.next
      → ((j : ℕ) → s'.nodes j ≡ (if k == j then some x else s.nodes j))
      → Distinct s'
  passes-Distinct n at own channel same_next written =
      let b = v.below k n at in
      writes-Distinct (omega (arith, same_next)) written
        (omega (arith, b.0, own, same_next), omega (arith, b.0, channel, same_next))
        (λ j m e ne equal. v.distinct k j n m at e ne (sym own ∙ equal))
        (λ j m e ne differs. absurd (differs (channel ∙ sym own)))
        (λ i m e ne differs equal. v.retired i k m n e at differs (sym own ∙ equal))

TreeStep-Distinct : (s s' : Tree) → TreeStep s s' → Distinct s → Distinct s'
TreeStep-Distinct s s' (stays same_next same_receivers same_nodes) v = record {
  below = λ i n e.
      let b = v.below i n (sym (same_nodes i) ∙ e) in
      (omega (arith, b.0, same_next), omega (arith, b.1, same_next));
  distinct = λ i j n m e f. v.distinct i j n m (sym (same_nodes i) ∙ e) (sym (same_nodes j) ∙ f);
  retired = λ i j n m e f. v.retired i j n m (sym (same_nodes i) ∙ e) (sym (same_nodes j) ∙ f);
}
TreeStep-Distinct s s' (spawns id n at runs whole two more_receivers more_nodes) v =
    writes-Distinct s s' v s.next (child s n) (omega (arith, two)) more_nodes
      (omega (arith, two), omega (arith, two))
      (λ j m e ne equal. omega (arith, (v.below j m e).0, equal))
      (λ j m e ne differs. absurd (differs refl))
      (λ i m e ne differs equal. omega (arith, (v.below i m e).1, equal))
TreeStep-Distinct s s' (stops id n at runs whole one other_receivers other_nodes) v =
    writes-Distinct s s' v id (record n { own = s.next; channel = n.own }) (omega (arith, one))
      other_nodes (omega (arith, one), omega (arith, one, (v.below id n at).0))
      (λ j m e ne equal. omega (arith, (v.below j m e).0, equal))
      (λ j m e ne differs equal. v.distinct id j n m at e ne (sym equal))
      (λ i m e ne differs equal. omega (arith, (v.below i m e).1, equal))
TreeStep-Distinct s s' (passes id n at runs left same_next same_receivers other_nodes) v =
    passes-Distinct s s' v id (record n { channel = n.own }) n at refl refl same_next other_nodes
TreeStep-Distinct s s' (ends id n at runs left same_next fewer_receivers other_nodes) v =
    passes-Distinct s s' v id (record n { channel = n.own; is_running = false }) n at refl refl
      same_next other_nodes

pub record Whole (root : ℕ) (s : Tree) : Type 0 where
  pub inv : Inv root s
  pub distinct : Distinct s

pub TreeStep-Whole : (root : ℕ) (s s' : Tree) → TreeStep s s' → Whole root s → Whole root s'
TreeStep-Whole root s s' step v = record {
  inv = TreeStep-Inv root s s' step v.inv;
  distinct = TreeStep-Distinct s s' step v.distinct;
}

-- A channel with a receiver has a running node that holds it.
holder :
    (k : ℕ) (nodes : ℕ → Option Node) (loc : ℕ)
    → total k nodes loc ≢ 0
    → (j : ℕ) × (m : Node) × (nodes j ≡ some m) × (held m loc ≢ 0)
holder zero nodes loc ne = absurd (ne refl)
holder (suc k) nodes loc ne = elim (Option-cases (nodes k)) [
  | inl e ↦
      holder k nodes loc
        (λ none_left. ne (ap (λ o. held_at o loc + total k nodes loc) e ∙ omega (arith, none_left)))
  | inr (m, e) ↦ elim (Bool-cases (held m loc == 0)) [
    | inr holds ↦ (k, m, e, (λ equal. ground (arith, holds, equal)))
    | inl free ↦ holder k nodes loc (λ none_left.
        ne (ap (λ o. held_at o loc + total k nodes loc) e ∙ ground (arith, none_left, free)))
  ]
]

-- A channel that is awaited and has a receiver is the parent's channel of a running node.
pub awaited_child :
    (root : ℕ) (s : Tree) (id : ℕ) (n : Node)
    → Whole root s
    → s.nodes id ≡ some n
    → n.channel ≢ n.own
    → s.receivers n.channel ≢ 0
    → (j : ℕ) × (m : Node) × (s.nodes j ≡ some m) × (m.is_running ≡ true) × (m.parent ≡ n.channel)
awaited_child root s id n v at retired held_by =
    let (j, m, there, holds) =
      holder s.next s.nodes n.channel (λ free. held_by (v.inv.channels n.channel ∙ free)) in
    let not_own : m.own ≢ n.channel = v.distinct.retired id j n m at there retired in
    let (runs, parent) = held-cases m n.channel holds not_own in (j, m, there, runs, parent)
  where
    held-cases :
        (m : Node) (loc : ℕ)
        → held m loc ≢ 0
        → m.own ≢ loc
        → (m.is_running ≡ true) × (m.parent ≡ loc)
    held-cases m loc holds not_own = ground arith
