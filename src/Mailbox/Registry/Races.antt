-- ===== src/Mailbox/Registry/Races.antt =====
-- waltz/src/mailbox.rs: what a watcher that races with termination can rely on.
use waltz.Base.{
  ◌≡◌, refl, sym, ◌∙◌, Bool, true, false, none, some, List, [], ◌∷◌, All, Result, ok, err,
  if◌then◌else◌, arith, ap,
}
use waltz.Base.Map.{get-or_insert, get-remove}
use waltz.Extern.Flume.{Flume}
use waltz.Extern.Oneshot.{Oneshot}
use waltz.Actor.{ActorId, Incoming}
use waltz.Memory.{WatcherRegistry, Watcher, ActorTerminated, actor_gone, Heap}
use waltz.Mailbox.{add, remove, take}
use waltz.Mailbox.Registry.{
  Op, adds, removes, takes, Content, stored, all_stored, Spares, Avoids, count, IsWell, held,
  watchers_of, count-values, all_stored-IsWell, all_stored-Spares, all_stored-Avoids,
  all_stored_closed,
}

-- The answer of `add`.
abbrev answer : Content → Result (Unit {0}) ActorTerminated
answer none = err actor_gone
answer (some m) = ok tt

module _ {M : Type 0} ⦃flume : Flume (Incoming M)⦄ ⦃oneshot : Oneshot (Unit {0})⦄ where
  -- Some thread operates on the registry `r`.
  unfoldable pub operate : WatcherRegistry → Op → Heap M → Heap M
  operate r (adds watcher) h = (add r watcher h).1
  operate r (removes id) h = remove r id h
  operate r takes h = (take r h).1

  -- Threads operate on it one after another.
  unfoldable pub operates : WatcherRegistry → List Op → Heap M → Heap M
  operates r [] h = h
  operates r (op ∷ ops) h = operates r ops (operate r op h)

  abbrev pub content : WatcherRegistry → Heap M → Content
  content r h = h.registries r.registry

  content-operate :
      (r : WatcherRegistry) (op : Op) (h : Heap M)
      → content r (operate r op h) ≡ stored op (content r h)
  unfolding operate stored add remove take
  content-operate r (adds w) h = ground arith
  content-operate r (removes id) h = ground arith
  content-operate r takes h = ground arith

  content-operates :
      (r : WatcherRegistry) (ops : List Op) (h : Heap M)
      → content r (operates r ops h) ≡ all_stored ops (content r h)
  unfolding operates all_stored
  content-operates r [] h = refl
  content-operates r (op ∷ ops) h =
      content-operates r ops (operate r op h) ∙ ap (all_stored ops) (content-operate r op h)

  take_result : (r : WatcherRegistry) (h : Heap M) → (take r h).0 ≡ watchers_of (content r h)
  unfolding take
  take_result r h = ground arith

  add_result :
      (r : WatcherRegistry) (w : Watcher) (h : Heap M) → (add r w h).0 ≡ answer (content r h)
  unfolding add
  add_result r w h = ground arith

  count-take :
      (r : WatcherRegistry) (id : ActorId) (h : Heap M)
      → IsWell (content r h)
      → count id (take r h).0 ≡ (if held id (content r h) then 1 else 0)
  count-take r id h well = rw (take_result r h) (at (content r h) well)
    where
      at : (c : Content) → IsWell c → count id (watchers_of c) ≡ (if held id c then 1 else 0)
      at none k = refl
      at (some m) k = count-values id m k

  held-add :
      (r : WatcherRegistry) (w : Watcher) (h : Heap M)
      → (add r w h).0 ≡ ok tt
      → held w.watcher_id (stored (adds w) (content r h)) ≡ true
  unfolding stored
  held-add r w h added = at (content r h) (sym (add_result r w h) ∙ added)
    where
      at : (c : Content) → answer c ≡ ok tt → held w.watcher_id (stored (adds w) c) ≡ true
      at none e = cc
      at (some m) e = ground (arith, get-or_insert w.watcher_id w.watcher_id w m)

  -- No watcher that registers is lost or signaled twice: if `add` succeeds, and until termination
  -- takes the watchers no one removes that id, then whatever else the threads do in between, the
  -- watchers taken contain the id exactly once.
  pub added_is_taken :
      (r : WatcherRegistry) (w : Watcher) (h : Heap M) (ops : List Op)
      → IsWell (content r h)
      → (add r w h).0 ≡ ok tt
      → All (Spares w.watcher_id) ops
      → count w.watcher_id (take r (operates r ops (operate r (adds w) h))).0 ≡ 1
  unfolding operates stored all_stored
  added_is_taken r w h ops well added spared =
      count-take r w.watcher_id _ (rw history (all_stored-IsWell (adds w ∷ ops) (content r h) well))
      ∙ ap (λ (b : Bool). if b then 1 else 0)
          (ap (held w.watcher_id) history
            ∙ all_stored-Spares w.watcher_id ops _ spared (held-add r w h added))
    where
      history :
          content r (operates r ops (operate r (adds w) h))
          ≡ all_stored (adds w ∷ ops) (content r h)
      history = content-operates r (adds w ∷ ops) h

  -- A watcher that is removed and not added again is not among the watchers taken.
  pub removed_is_not_taken :
      (r : WatcherRegistry) (id : ActorId) (h : Heap M) (ops : List Op)
      → IsWell (content r h)
      → All (Avoids id) ops
      → count id (take r (operates r ops (operate r (removes id) h))).0 ≡ 0
  unfolding operates stored all_stored
  removed_is_not_taken r id h ops well avoided =
      count-take r id _ (rw history (all_stored-IsWell (removes id ∷ ops) (content r h) well))
      ∙ ap (λ (b : Bool). if b then 1 else 0)
          (ap (held id) history ∙ all_stored-Avoids id ops _ avoided (held-removes (content r h)))
    where
      history :
          content r (operates r ops (operate r (removes id) h))
          ≡ all_stored (removes id ∷ ops) (content r h)
      history = content-operates r (removes id ∷ ops) h

      held-removes : (c : Content) → held id (stored (removes id) c) ≡ false
      held-removes none = refl
      held-removes (some m) = ground (arith, get-remove id id m)

  -- Taking the watchers closes registration for good: whatever the threads do afterwards, every
  -- `add` fails as terminated and a second take is empty.
  pub take_closes :
      (r : WatcherRegistry) (w : Watcher) (h : Heap M) (ops : List Op)
      → let h' = operates r ops (operate r takes h) in
        ((add r w h').0 ≡ err actor_gone) × ((take r h').0 ≡ [])
  unfolding operates stored all_stored
  take_closes r w h ops =
      (add_result r w _ ∙ ap answer history, take_result r _ ∙ ap watchers_of history)
    where
      closed : (c : Content) → all_stored ops (stored takes c) ≡ none
      closed none = all_stored_closed ops
      closed (some m) = all_stored_closed ops

      history : content r (operates r ops (operate r takes h)) ≡ none
      history = content-operates r (takes ∷ ops) h ∙ closed (content r h)
