-- ===== src/Tree/Changes.antt =====
-- waltz/src/actor_context.rs: the cells and receivers behind the changes of a step.
use waltz.Base.{
  ℕ, ◌+◌, ◌-◌, ◌≡◌, ◌≢◌, refl, ap, ◌∙◌, inl, inr, Option, ◌==◌, if◌then◌else◌, Bool-cases, if-cases,
  arith,
}
use waltz.Base.Cells.{Cells, update, update_self}
use waltz.Extern.Watch.{Watch}
use waltz.World.{Task}
use waltz.Tree.Shape.{node_at}

-- A change behind a change elsewhere.
pub swap_changes :
    {A : Type 0} (i k j : ℕ) (a b c : A)
    → i ≢ k
    → (if i == j then a else (if k == j then b else c))
      ≡ (if k == j then b else (if i == j then a else c))
swap_changes i k j a b c ne = elim (if-cases i j a (if k == j then b else c)) [
  | inl (here, e) ↦ e ∙ ground (arith, here, ne)
  | inr (away, e) ↦ e ∙ ground (arith, away)
]

module _ ⦃watch : Watch⦄ (stops : Cells watch.Channel) where
  -- The receivers behind the end of a task.
  pub dropped :
      (p own loc : ℕ)
      → let stops' = update stops own (watch.drop_sender (watch.drop_receiver (stops own))) in
        watch.receivers (update stops' p (watch.drop_receiver (watch.drop_receiver (stops' p))) loc)
        ≡ watch.receivers (stops loc)
          - ((if p == loc then 2 else 0) + (if own == loc then 1 else 0))
  dropped p own loc = elim (Bool-cases (p == loc)) [
    | inl same ↦
        let e : p ≡ loc = ground arith in
        rw same (
          watch.receivers-drop _
          ∙ ap (λ n. n - 1) (watch.receivers-drop _)
          ∙ ap (λ n. n - 1 - 1) (own_dropped p)
          ∙ ap (λ i. watch.receivers (stops i) - (if own == i then 1 else 0) - 1 - 1) e
          ∙ omega arith)
    | inr differs ↦ rw differs (own_dropped loc ∙ omega arith)
  ]
    where
      own_dropped :
          (i : ℕ)
          → watch.receivers
              (update stops own (watch.drop_sender (watch.drop_receiver (stops own))) i)
            ≡ watch.receivers (stops i) - (if own == i then 1 else 0)
      own_dropped i = elim (Bool-cases (own == i)) [
        | inl same ↦
            let e : own ≡ i = ground arith in
            rw same (
              watch.receivers-drop_sender _
              ∙ watch.receivers-drop _
              ∙ ap (λ k. watch.receivers (stops k) - 1) e)
        | inr differs ↦ rw differs (omega arith)
      ]

-- The last of two changes of one cell counts.
pub replaced :
    {A : Type 0} (i j : ℕ) (a a' b c : A)
    → a ≡ a'
    → (if i == j then a else c) ≡ (if i == j then a' else (if i == j then b else c))
replaced i j a a' b c same = elim (Bool-cases (i == j)) [ inl e ↦ rw e same | inr e ↦ rw e refl ]

module _ {S : Type 0} where
  pub node_at-if :
      (k j : ℕ) (o o' : Option (Task S))
      → node_at (if k == j then o else o') ≡ (if k == j then node_at o else node_at o')
  node_at-if k j o o' = elim (Bool-cases (k == j)) [ inl e ↦ rw e refl | inr e ↦ rw e refl ]

module _ ⦃watch : Watch⦄ (stops : Cells watch.Channel) where
  -- The receivers behind a spawn.
  pub cloned_twice :
      (p q loc : ℕ)
      → watch.receivers (
          update
            (update
              (update stops p (watch.clone_receiver (stops p)))
              p
              (watch.clone_receiver (update stops p (watch.clone_receiver (stops p)) p)))
            q
            watch.channel
            loc)
        ≡ (if q == loc
            then 1
            else (if p == loc
                then watch.receivers (stops loc) + 2
                else watch.receivers (stops loc)))
  cloned_twice p q loc = elim (Bool-cases (q == loc)) [
    | inl is_new ↦ rw is_new watch.receivers-channel
    | inr is_old ↦ rw is_old (elim (Bool-cases (p == loc)) [
      | inl same ↦
          let e : p ≡ loc = ground arith in
          rw same (
            watch.receivers-clone _
            ∙ ap (λ c. watch.receivers c + 1) (update_self stops p (watch.clone_receiver (stops p)))
            ∙ ap (λ n. n + 1) (watch.receivers-clone (stops p))
            ∙ ap (λ i. watch.receivers (stops i) + 1 + 1) e
            ∙ omega arith)
      | inr differs ↦ rw differs refl
    ])
  ]

  -- The receivers behind `stop_children`.
  pub stopped :
      (p q loc : ℕ)
      → watch.receivers
          (update (update stops q watch.channel) p (watch.drop_receiver (watch.send (stops p))) loc)
        ≡ (if p == loc
            then watch.receivers (stops loc) - 1
            else (if q == loc then 1 else watch.receivers (stops loc)))
  stopped p q loc = elim (Bool-cases (p == loc)) [
    | inl same ↦
        let e : p ≡ loc = ground arith in
        rw same (
          watch.receivers-drop _
          ∙ ap (λ n. n - 1) (watch.receivers-send (stops p))
          ∙ ap (λ i. watch.receivers (stops i) - 1) e)
    | inr differs ↦ rw differs (elim (Bool-cases (q == loc)) [
      | inl is_new ↦ rw is_new watch.receivers-channel
      | inr is_old ↦ rw is_old refl
    ])
  ]
