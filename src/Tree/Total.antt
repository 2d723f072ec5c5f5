-- ===== src/Tree/Total.antt =====
-- waltz/src/actor_context.rs: the receivers that the tasks of the tree have, counted.
use waltz.Base.{
  ℕ, zero, suc, ◌+◌, ◌≤◌, ◌<◌, ◌≡◌, ◌≢◌, refl, sym, ap, ◌∙◌, Option, none, some, Option-cases, inl,
  inr, arith, ℕ_discrete,
}
use waltz.Tree.{Node, held, held_at, total}

-- Only the first `k` nodes count.
pub total_ext :
    (k : ℕ) (nodes nodes' : ℕ → Option Node) (loc : ℕ)
    → ((j : ℕ) → j < k → nodes' j ≡ nodes j)
    → total k nodes' loc ≡ total k nodes loc
total_ext zero nodes nodes' loc same = refl
total_ext (suc k) nodes nodes' loc same = rw (same k (omega arith)) (
    ap (λ n. held_at (nodes k) loc + n)
      (total_ext k nodes nodes' loc (λ j below. same j (omega arith))))

-- A change of one node changes the total by what that node has.
pub total_change :
    (k id : ℕ) (nodes nodes' : ℕ → Option Node) (loc : ℕ)
    → id < k
    → ((j : ℕ) → id ≢ j → nodes' j ≡ nodes j)
    → total k nodes' loc + held_at (nodes id) loc ≡ total k nodes loc + held_at (nodes' id) loc
total_change zero id nodes nodes' loc below same = absurd (omega arith)
total_change (suc k) id nodes nodes' loc below same = elim (ℕ_discrete id k) [
  | yes e ↦
      let rest =
        total_ext k nodes nodes' loc (λ j under. same j (λ e'. omega (arith, e, e', under))) in
      rw e (omega (arith, rest))
  | no ne ↦
      let rest = total_change k id nodes nodes' loc (omega (arith, ne)) same in
      let top = ap (λ o. held_at o loc) (same k ne) in omega (arith, rest, top)
]

-- What a node has is part of the total.
pub held-le-total :
    (k id : ℕ) (nodes : ℕ → Option Node) (n : Node) (loc : ℕ)
    → id < k
    → nodes id ≡ some n
    → held n loc ≤ total k nodes loc
held-le-total zero id nodes n loc below e = absurd (omega arith)
held-le-total (suc k) id nodes n loc below e = elim (ℕ_discrete id k) [
  | yes same ↦ let top = ap (λ o. held_at o loc) (ap nodes (sym same) ∙ e) in omega (arith, top)
  | no ne ↦ let rest = held-le-total k id nodes n loc (omega (arith, ne)) e in omega (arith, rest)
]

-- A place without a node adds nothing.
pub total_none :
    (k : ℕ) (nodes : ℕ → Option Node) (loc : ℕ)
    → nodes k ≡ none
    → total (k + 1) nodes loc ≡ total k nodes loc
total_none k nodes loc e =
    let next : k + 1 ≡ suc k = omega arith in
    ap (λ n. total n nodes loc) next ∙ ap (λ o. held_at o loc + total k nodes loc) e ∙ omega arith

-- A channel of which no node has a receiver.
pub total_zero :
    (k : ℕ) (nodes : ℕ → Option Node) (loc : ℕ)
    → ((j : ℕ) (n : Node) → j < k → nodes j ≡ some n → held n loc ≡ 0)
    → total k nodes loc ≡ 0
total_zero zero nodes loc unheld = refl
total_zero (suc k) nodes loc unheld =
    let rest = total_zero k nodes loc (λ j n below e. unheld j n (omega arith) e) in
    elim (Option-cases (nodes k)) [
      | inl e ↦ let top = ap (λ o. held_at o loc) e in omega (arith, top, rest)
      | inr (n, e) ↦
          let top = ap (λ o. held_at o loc) e ∙ unheld k n (omega arith) e in
          omega (arith, top, rest)
    ]
