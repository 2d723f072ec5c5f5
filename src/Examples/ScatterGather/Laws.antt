-- ===== src/Examples/ScatterGather/Laws.antt =====
-- waltz/examples/scatter_gather.rs: what the gatherer has added up when it stops.
use native.Mathlib.Nat.{mod-eq_of_lt}
use mathlib.Core.List.{append-nil}
use waltz.Base.{
  ℕ, suc, ◌+◌, ◌-◌, ◌^◌, ◌%◌, ◌<◌, ◌≡◌, refl, sym, ap, ◌∙◌, inl, inr, some, is_some, List, [], ◌∷◌,
  ◌++◌, if◌then◌else◌, lt→ltb, All, Option-cases, arith,
}
use waltz.Base.Map
use waltz.Base.Map.{Map}
use waltz.Extern.Flume.{Flume}
use waltz.Extern.Oneshot.{Oneshot}
use waltz.Extern.Watch.{Watch}
use waltz.Actor.{ActorId, Incoming, message, terminated, Control, continue, stop}
use waltz.Memory.{WatcherRegistry}
use waltz.Context.{Context, take_watched_for}
use waltz.World.{value, returns, Outcome, World, run_script}
use waltz.Examples.Receives.{receives, receives-continue, receives_dropped, receives_signaled}
use waltz.Examples.ScatterGather.{Message, partial, compute, Gathering, gather, gatherer}

-- What the gatherer is sent: partial sums and terminated signals.
abbrev pub IsExpected : Incoming Message → Type 0
IsExpected (message (partial sum)) = Unit {0}
IsExpected (message (compute shard r into)) = ⊥
IsExpected (terminated id) = Unit {0}

abbrev pub partials : List (Incoming Message) → ℕ
partials [] = 0
partials (message (partial sum) ∷ rest) = sum + partials rest
partials (message (compute shard r into) ∷ rest) = partials rest
partials (terminated id ∷ rest) = partials rest

-- The watches that are left behind the items: a watch ends with its signal.
abbrev pub left : List (Incoming Message) → Map WatcherRegistry → Map WatcherRegistry
left [] watched = watched
left (message m ∷ rest) watched = left rest watched
left (terminated id ∷ rest) watched = left rest (Map.remove id watched)

-- The signals of actors that are watched when they arrive.
abbrev pub signals : List (Incoming Message) → Map WatcherRegistry → ℕ
signals [] watched = 0
signals (message m ∷ rest) watched = signals rest watched
signals (terminated id ∷ rest) watched =
    if is_some (Map.get id watched)
    then suc (signals rest (Map.remove id watched))
    else signals rest (Map.remove id watched)

gather-continue :
    (id : ActorId) (remaining total : ℕ)
    → 1 < remaining
    → remaining < 2 ^ 64
    → gather (terminated id) (record { remaining = remaining; total = total })
      ≡ returns (value (continue (record { remaining = remaining - 1; total = total })))
unfolding gather
gather-continue id remaining total more small =
    let one_less : (remaining + 2 ^ 64 - 1) % 2 ^ 64 ≡ remaining - 1 = omega (arith, more, small) in
    rw one_less (rw (lt→ltb 0 (remaining - 1) (omega (arith, more))) refl)

module _ {T : Type 0} ⦃flume : Flume (Incoming Message)⦄ ⦃oneshot : Oneshot (Unit {0})⦄
    ⦃watch : Watch⦄ where
  -- What is left to do of a list of items, with `remaining` workers to wait for and `total` added up.
  abbrev going :
      ℕ
      → List (Incoming Message)
      → ℕ
      → ℕ
      → Context
      → World Message T
      → Outcome (Control Gathering) × Context × World Message T
  going worker items remaining total c w =
      receives (gatherer worker) items (record { remaining = remaining; total = total }) c w

  going-eq :
      (worker : ℕ) (items : List (Incoming Message)) (r r' t t' : ℕ) (c : Context)
      (w : World Message T)
      → r ≡ r'
      → t ≡ t'
      → going worker items r t c w ≡ going worker items r' t' c w
  going-eq worker items r r' t t' c w p q = rw (p, q) refl

  receives-going :
      (worker : ℕ) (items more : List (Incoming Message)) (remaining total : ℕ) (c : Context)
      (w : World Message T)
      → All IsExpected items
      → signals items c.watched < remaining
      → remaining < 2 ^ 64
      → total + partials items < 2 ^ 64
      → going worker (items ++ more) remaining total c w
        ≡ going worker more
            (remaining - signals items c.watched)
            (total + partials items)
            (record c { watched = left items c.watched })
            w
  unfolding gatherer gather run_script
  receives-going worker [] more remaining total c w expected fewer small fits =
      going-eq worker more remaining (remaining - 0) total (total + 0) c w (omega arith)
        (omega arith)
  receives-going worker (message (partial sum) ∷ rest) more remaining total c w expected fewer small
        fits =
      let whole : (total + sum) % 2 ^ 64 ≡ total + sum = mod-eq_of_lt (omega (arith, fits)) in
      receives-continue (gatherer worker) (partial sum) (rest ++ more)
        (record { remaining = remaining; total = total })
        (record { remaining = remaining; total = total + sum }) c c w w
        (ap (λ t. (value (continue (record { remaining = remaining; total = t })), c, w)) whole)
      ∙ receives-going worker rest more remaining (total + sum) c w expected.1 fewer small
          (omega (arith, fits))
      ∙ going-eq worker more _ _ _ _ _ w refl (omega arith)
  receives-going worker (message (compute shard r into) ∷ rest) more remaining total c w expected
        fewer small fits =
      absurd expected.0
  receives-going worker (terminated id ∷ rest) more remaining total c w expected fewer small fits =
      let c' : Context = record c { watched = Map.remove id c.watched } in
      elim (Option-cases (Map.get id c.watched)) [
        | inl e ↦
            let none_counted : signals (terminated id ∷ rest) c.watched ≡ signals rest c'.watched =
              rw e refl in
            receives_dropped (gatherer worker) id (rest ++ more) _ c w e
            ∙ receives-going worker rest more remaining total c' w expected.1
                (omega (arith, fewer, none_counted)) small fits
            ∙ going-eq worker more _ _ _ _ _ w (omega (arith, none_counted)) refl
        | inr (r, e) ↦
            let counted : signals (terminated id ∷ rest) c.watched ≡ suc (signals rest c'.watched) =
              rw e refl in
            receives_signaled (gatherer worker) id r (rest ++ more) _
              (record { remaining = remaining - 1; total = total }) c w w e c'
              (ap (λ script. run_script script c' w)
                (gather-continue id remaining total (omega (arith, fewer, counted)) small))
            ∙ receives-going worker rest more (remaining - 1) total c' w expected.1
                (omega (arith, fewer, counted)) (omega (arith, small)) fits
            ∙ going-eq worker more _ _ _ _ _ w (omega (arith, fewer, counted)) refl
      ]

  receives_last :
      (worker total : ℕ) (last : ActorId) (r : WatcherRegistry) (more : List (Incoming Message))
      (c : Context) (w : World Message T)
      → Map.get last c.watched ≡ some r
      → going worker (terminated last ∷ more) 1 total c w
        ≡ (value stop, record c { watched = Map.remove last c.watched }, w)
  unfolding receives gatherer gather run_script take_watched_for
  receives_last worker total last r more c w e = rw (e, receives) refl

  -- The gatherer stops with the whole total: whatever the order in which the partial sums and the
  -- terminated signals arrive, also signals of actors that it does not watch, it goes on as long as
  -- all but one of the workers that it waits for have been signaled, has then added up all partial
  -- sums, and stops at the signal of a worker that it still watches, whatever is queued behind it. The
  -- number of workers is a `usize`, and the total does not overflow a `u64`.
  pub receives-gatherer :
      (worker : ℕ) (items more : List (Incoming Message)) (last : ActorId) (r : WatcherRegistry)
      (remaining : ℕ) (c : Context) (w : World Message T)
      → All IsExpected items
      → signals items c.watched + 1 ≡ remaining
      → Map.get last (left items c.watched) ≡ some r
      → remaining < 2 ^ 64
      → partials items < 2 ^ 64
      → let start : Gathering = record { remaining = remaining; total = 0 } in
        (receives (gatherer worker) items start c w ≡ (
          value (continue (record { remaining = 1; total = partials items })),
          record c { watched = left items c.watched },
          w,
        ))
        × (receives (gatherer worker) (items ++ terminated last ∷ more) start c w
            ≡ (value stop, record c { watched = Map.remove last (left items c.watched) }, w))
  unfolding receives
  receives-gatherer worker items more last r remaining c w expected workers watched small fits =
      let c' : Context = record c { watched = left items c.watched } in
      (
        ap (λ l. going worker l remaining 0 c w) (sym (append-nil items))
            ∙ receives-going worker items [] remaining 0 c w expected (omega (arith, workers)) small
                (omega (arith, fits))
            ∙ going-eq worker [] _ 1 _ (partials items) c' w (omega (arith, workers)) (omega arith),
        receives-going worker items (terminated last ∷ more) remaining 0 c w expected
              (omega (arith, workers)) small (omega (arith, fits))
            ∙ going-eq worker (terminated last ∷ more) _ 1 _ (partials items) c' w
                (omega (arith, workers)) (omega arith)
            ∙ receives_last worker (partials items) last r more c' w watched,
      )
