-- ===== src/System/Sound.antt =====
-- waltz/src/actor_system.rs and waltz/src/actor_context.rs: while the root runs, what its tasks do keeps
-- the wait for the root's end pending.
use waltz.Base.{
  ℕ, ◌<◌, ◌≤◌, ◌≡◌, refl, sym, ap, ◌∙◌, subst, ◌⊎◌, inl, inr, Bool, true, false, Option, none, some,
  of_some, [], ◌∷◌, ◌==◌, if◌then◌else◌, Bool-cases, if-cases, Option-cases, Result-cases, arith,
}
use waltz.Base.Cells.{update-ne}
use waltz.Base.Map
use waltz.Base.Map.{values}
use waltz.Extern.Flume.{Flume}
use waltz.Extern.Oneshot.{Oneshot}
use waltz.Extern.Watch.{Watch}
use waltz.Actor.{Incoming}
use waltz.Config.{ActorConfig}
use waltz.Restart.{Instant}
use waltz.Memory.{Heap}
use waltz.Mailbox.{add, split, make_mailbox, terminated_sink}
use waltz.Reference.{ActorRef, watcher_registry, make_watcher, send_own_terminated, tell, new_self}
use waltz.Context
use waltz.Context.{Context, take_watched, take_watched_for, signal_at_once}
use waltz.World.{Behaviour, Task, World, spawn, spawn_child, stop_children}
use waltz.RunLoop.{poll}
use waltz.RunLoop.Terminate.{drain, terminate, finish}
use waltz.RunLoop.Kept.{runs_in, active-channel, Kept}
use waltz.RunLoop.Kept.Polls.{poll-Kept}
use waltz.Tree.Shape.{spawned_task}
use waltz.System.Waiting.{
  IsCounted, Waiting, same-Waiting, write-Waiting, add-Waiting, remove-Waiting, deregister-Waiting,
  send_sink-Waiting, tell-Waiting, recv-Waiting, take-Waiting,
}

-- The task's registry lies at its own location, and its sink is that of its mailbox.
abbrev pub IsOwn : {S : Type 0} → ℕ → Task S → Type 0
IsOwn id t =
    (t.mailbox.watcher_registry.registry ≡ id) × IsCounted t.context.self_ref.terminated_sink

abbrev pub is_running : {S : Type 0} → Option (Task S) → Bool
is_running none = true
is_running (some t) = runs_in t.phase

module _ {M : Type 0} ⦃flume : Flume (Incoming M)⦄ ⦃oneshot : Oneshot (Unit {0})⦄
    (root rx : ℕ) where
  watch-Waiting :
      (r : ActorRef) (c : Context) (h : Heap M)
      → IsCounted c.self_ref.terminated_sink
      → Waiting root rx h
      → Waiting root rx (Context.watch r c h).2
  unfolding Context.watch signal_at_once make_watcher send_own_terminated
  watch-Waiting r c h counted v =
      let v' =
        add-Waiting root rx (watcher_registry r) (make_watcher c.self_ref) h (λ _. counted) v in
      elim (Result-cases (add (watcher_registry r) (make_watcher c.self_ref) h).0) [
        | inl (_, e) ↦ rw (e, signal_at_once) v'
        | inr (_, e) ↦
            rw (e, signal_at_once)
              (send_sink-Waiting root rx c.self_ref.terminated_sink r.actor_id _ counted v')
      ]

  unwatch-Waiting :
      (r : ActorRef) (c : Context) (h : Heap M)
      → Waiting root rx h
      → Waiting root rx (Context.unwatch r c h).1
  unfolding Context.unwatch
  unwatch-Waiting r c h v = elim (Option-cases (Map.get r.actor_id c.watched)) [
    | inl e ↦ rw (e, Context.unwatch) v
    | inr (registry, e) ↦
        rw (e, Context.unwatch) (remove-Waiting root rx registry c.self_ref.actor_ref.actor_id h v)
  ]

module _ {M : Type 0} ⦃flume : Flume (Incoming M)⦄ ⦃oneshot : Oneshot (Unit {0})⦄ where
  unwatch-self_ref :
      (r : ActorRef) (c : Context) (h : Heap M) → (Context.unwatch r c h).0.self_ref ≡ c.self_ref
  unfolding Context.unwatch
  unwatch-self_ref r c h = elim (Option-cases (Map.get r.actor_id c.watched)) [
    | inl e ↦ rw (e, Context.unwatch) refl
    | inr (registry, e) ↦ rw (e, Context.unwatch) refl
  ]

module _ {M S : Type 0} ⦃flume : Flume (Incoming M)⦄ ⦃oneshot : Oneshot (Unit {0})⦄ ⦃watch : Watch⦄
    (root rx id : ℕ) where
  -- The task at `id` is polled.
  pub record Sound (p : Task S × World M S) : Type 0 where
    pub own : IsOwn id p.0
    pub others : (j : ℕ) (u : Task S) → p.1.tasks j ≡ some u → IsOwn j u
    pub below : root < p.1.next
    pub settled :
        ((if id == root then runs_in p.0.phase else is_running (p.1.tasks root)) ≡ false)
        ⊎ Waiting root rx p.1.heap

  -- A change of what does not count but for the heap.
  quiet :
      (t t' : Task S) (w w' : World M S)
      → IsOwn id t'
      → runs_in t'.phase ≡ runs_in t.phase
      → w.next ≤ w'.next
      → w'.tasks ≡ w.tasks
      → (Waiting root rx w.heap → Waiting root rx w'.heap)
      → Sound (t, w)
      → Sound (t', w')
  quiet t t' w w' own same_phase grown same_tasks waits v = record {
    own = own;
    others = λ j u e. v.others j u (sym (ap (λ f. f j) same_tasks) ∙ e);
    below = omega (arith, v.below, grown);
    settled = elim v.settled [
      | inl ended ↦ inl (
          ap (λ b. if id == root then b else is_running (w'.tasks root)) same_phase
          ∙ ap (λ f. if id == root then runs_in t.phase else is_running (f root)) same_tasks
          ∙ ended)
      | inr waiting ↦ inr (waits waiting)
    ];
  }

  spawn_child-Sound :
      (t : Task S) (w : World M S) (behaviour : ℕ) (config : ActorConfig)
      → Sound (t, w)
      → Sound (t, (spawn_child t.context behaviour config w).1)
  unfolding spawn_child spawn new_self make_mailbox terminated_sink Context.new
  spawn_child-Sound t w behaviour config v = record {
    own = v.own;
    others = λ j u e.
        elim (if-cases w.next j (some (spawned_task t.context.stopping behaviour config w))
          (w.tasks j)) [
            | inl (here, e') ↦ subst (IsOwn j) (of_some (sym e' ∙ e)) (here, tt)
            | inr (away, e') ↦ v.others j u (sym e' ∙ e)
          ];
    below = omega (arith, v.below);
    settled = elim v.settled [
      | inl ended ↦ inl (
          ap (λ o. if id == root then runs_in t.phase else is_running o)
            (update-ne w.tasks w.next _ root (λ e. omega (arith, e, v.below)))
          ∙ ended)
      | inr waiting ↦ inr (write-Waiting root rx w.heap _ w.next [] (λ _. tt) refl refl waiting)
    ];
  }

  terminate-Sound :
      (t : Task S) (w : World M S) → runs_in t.phase ≡ true → Sound (t, w) → Sound (terminate t w)
  unfolding terminate take_watched stop_children drain
  terminate-Sound t w runs v =
      quiet t _ w _ v.own (sym runs) (omega arith) refl
        (λ waiting.
          deregister-Waiting root rx t.actor_id (values (take_watched t.context).0)
            (drain (split t.mailbox).0 w.heap).1 (same-Waiting root rx w.heap _ refl refl waiting))
        v

  finish-Sound :
      (t : Task S) (w : World M S) → runs_in t.phase ≡ true → Sound (t, w) → Sound (finish t w)
  unfolding finish
  finish-Sound t w runs v = elim (Bool-cases (id == root)) [
    | inl at_root ↦ record {
      own = v.own;
      others = v.others;
      below = v.below;
      settled = inl (rw at_root refl);
    }
    | inr elsewhere ↦ record {
      own = v.own;
      others = v.others;
      below = v.below;
      settled = elim v.settled [
        | inl ended ↦ inl (
            ap (λ b. if b then false else is_running (w.tasks root)) elsewhere
            ∙ sym (ap (λ b. if b then runs_in t.phase else is_running (w.tasks root)) elsewhere)
            ∙ ended)
        | inr waiting ↦ inr (
            take-Waiting root rx t.actor_id t.mailbox w.heap
              (λ e. ground (arith, elsewhere, v.own.0, e)) waiting)
      ];
    }
  ]

  Sound-Kept : Kept {M = M} {S = S} Sound
  unfolding Context.watch stop_children take_watched_for
  Sound-Kept = record {
    told = λ t w r m v.
        quiet t t w (record w { heap = tell r m w.heap }) v.own refl (omega arith) refl
          (tell-Waiting root rx r m w.heap) v;
    watched = λ t w r v.
        let (result, c, h) = Context.watch r t.context w.heap in
        quiet t (record t { context = c }) w (record w { heap = h }) v.own refl (omega arith) refl
          (watch-Waiting root rx r t.context w.heap v.own.1) v;
    unwatched = λ t w r v.
        let (c, h) = Context.unwatch r t.context w.heap in
        quiet t (record t { context = c }) w (record w { heap = h })
          (
            v.own.0,
            subst (λ s. IsCounted s.terminated_sink) (sym (unwatch-self_ref r t.context w.heap))
                v.own.1,
          )
          refl (omega arith) refl (unwatch-Waiting root rx r t.context w.heap) v;
    spawned = λ t w behaviour config active v. spawn_child-Sound t w behaviour config v;
    taken = λ t w other v.
        quiet t (record t { context = (take_watched_for other t.context).1 }) w w v.own refl
          (omega arith) refl (λ h. h) v;
    counted = λ t w restarts v.
        quiet t (record t { restarts = restarts }) w w v.own refl (omega arith) refl (λ h. h) v;
    logged = λ t w event v.
        quiet t t w (record w { log = event ∷ w.log }) v.own refl (omega arith) refl (λ h. h) v;
    received = λ t w incoming h arrived v.
        quiet t t w (record w { heap = h }) v.own refl (omega arith) refl
          (recv-Waiting root rx t.mailbox incoming w.heap h arrived) v;
    becomes = λ t w phase whole runs active v.
        quiet t (record t { phase = phase }) w w v.own
          ((active-channel phase t.context.stopping active).1 ∙ sym runs) (omega arith) refl
          (λ h. h) v;
    passes = λ t w phase runs left whole running free v.
        quiet t (record t { phase = phase }) w w v.own (running ∙ sym runs) (omega arith) refl
          (λ h. h) v;
    restarts = λ t w delay whole runs v.
        quiet t _ w _ v.own (sym runs) (omega arith) refl
          (λ h. same-Waiting root rx w.heap _ refl refl h) v;
    terminates = λ t w whole runs v. terminate-Sound t w runs v;
    finishes = λ t w runs left v. finish-Sound t w runs v;
  }

  pub poll-Sound :
      (behaviours : ℕ → Behaviour M S) (now : Instant) (t : Task S) (w : World M S)
      → Sound (t, w)
      → Sound (poll behaviours now t w)
  poll-Sound behaviours now t w v = poll-Kept Sound Sound-Kept behaviours now t w v
