-- ===== src/Context/Watching.antt =====
-- waltz/src/actor_context.rs: `watch`, `unwatch` and the signals that they promise and withhold.
use waltz.Base.{
  ℕ, ◌≡◌, refl, subst, ap, ◌∙◌, ◌⊎◌, inl, inr, Bool, true, false, none, some, Result, ok, err, ◌==◌,
  if◌then◌else◌, is_some, Option-cases, arith,
}
use waltz.Base.Cells.{update, update_self}
use waltz.Base.Map
use waltz.Base.Map.{Map, get-insert, get-remove, get-or_insert}
use waltz.Extern.Flume.{Flume}
use waltz.Extern.Oneshot.{Oneshot}
use waltz.Actor.{ActorId, Incoming, terminated}
use waltz.Config.{MailboxCapacity}
use waltz.Memory.{WatcherRegistry, Watcher, counted_sender, ActorTerminated, actor_gone, Heap}
use waltz.Mailbox.{add, remove, terminated_sink, send_sink}
use waltz.Mailbox.Laws.{Spec, handle_of, enqueue, spec_signal, Fits, IsRep, signal-IsRep}
use waltz.Mailbox.Registry.{Content, held}
use waltz.Reference.{ActorRef, SelfRef, watcher_registry, make_watcher, send_own_terminated}
use waltz.Context.{Context, take_watched_for, watch, unwatch, signal_at_once}

-- Whether a context watches an actor.
abbrev pub watches : Context → ActorId → Bool
watches c id = is_some (Map.get id c.watched)

-- A terminated signal passes `take_watched_for` only for an actor that is watched, and uses the watch
-- up: a second signal for it does not pass, whatever was watched before. Other watches are kept.
pub take_watched_for_lem :
    (c : Context) (id other : ActorId)
    → let (passes, c') = take_watched_for id c in
      (passes ≡ watches c id)
      × ((take_watched_for id c').0 ≡ false)
      × (watches c' other ≡ (if id == other then false else watches c other))
unfolding take_watched_for
take_watched_for_lem c id other = (
  refl,
  ground (arith, get-remove id id c.watched),
  ground (arith, get-remove id other c.watched),
)

-- A reference as `SelfRef::new` makes it.
abbrev pub self_of : ActorId → MailboxCapacity → ℕ → SelfRef
self_of id capacity loc = record {
  actor_ref = record { actor_id = id; mailbox_handle = handle_of capacity loc };
  terminated_sink = counted_sender (handle_of capacity loc).incoming_tx;
}

spec_signal-open :
    {M : Type 0} (id : ActorId) (q : Spec M)
    → q.is_open ≡ true
    → spec_signal id q ≡ (ok tt, enqueue (terminated id) q)
unfolding spec_signal
spec_signal-open id q open_ = rw open_

module _ {M : Type 0} ⦃flume : Flume (Incoming M)⦄ ⦃oneshot : Oneshot (Unit {0})⦄ where
  abbrev pub registered_at : ActorRef → Heap M → Content
  registered_at other h = h.registries other.mailbox_handle.watcher_registry.registry

  held-remove :
      (r : WatcherRegistry) (id : ActorId) (h : Heap M)
      → held id ((remove r id h).registries r.registry) ≡ false
  unfolding remove
  held-remove r id h = elim (Option-cases (h.registries r.registry)) [
    | inl e ↦ rw (e, remove) (ap (held id) e)
    | inr (m, e) ↦
        rw (e, remove)
          (ap (held id) (update_self h.registries r.registry _)
            ∙ ground (arith, get-remove id id m))
  ]

  -- After `unwatch` no terminated signal for the actor passes any more, enqueued or not, until it is
  -- watched again; the other watches stay. If it was watched, and its registration under the
  -- registry that `watch` recorded is open or closed, this actor is registered there no longer.
  pub unwatch_lem :
      (other : ActorRef) (c : Context) (h : Heap M) (id : ActorId)
      → let (c', h') = unwatch other c h in
        ((take_watched_for other.actor_id c').0 ≡ false)
        × (watches c' id ≡ (if other.actor_id == id then false else watches c id))
        × ((Map.get other.actor_id c.watched ≡ none)
            ⊎ ((r : WatcherRegistry) × (Map.get other.actor_id c.watched ≡ some r)
                × (held c.self_ref.actor_ref.actor_id (h'.registries r.registry) ≡ false)))
  unfolding unwatch take_watched_for
  unwatch_lem other c h id = elim (Option-cases (Map.get other.actor_id c.watched)) [
    | inl e ↦ rw (e, unwatch) (ap is_some e, ground (arith, e), inl refl)
    | inr (r, e) ↦
        rw (e, unwatch)
          (
            ground (arith, get-remove other.actor_id other.actor_id c.watched),
            ground (arith, get-remove other.actor_id id c.watched),
            inr (r, refl, held-remove r c.self_ref.actor_ref.actor_id h),
          )
  ]

  pub add_closed :
      (r : WatcherRegistry) (w : Watcher) (h : Heap M)
      → h.registries r.registry ≡ none
      → add r w h ≡ (err actor_gone, h)
  unfolding add
  add_closed r w h e = rw (e, add)

  pub add_open :
      (r : WatcherRegistry) (w : Watcher) (h : Heap M) (m : Map Watcher)
      → h.registries r.registry ≡ some m
      → add r w h ≡ (
        ok tt,
        record h {
          registries = update h.registries r.registry (some (Map.or_insert w.watcher_id w m));
        },
      )
  unfolding add
  add_open r w h m e = rw (e, add)

  module _ (id : ActorId) (capacity : MailboxCapacity) (loc : ℕ) where
    -- `watch` never panics while this actor's mailbox is open, and records the watch. If the other
    -- actor's registration is open, this actor is registered there and nothing is sent; if it is
    -- closed, the terminated signal is at the end of this actor's queue at once.
    pub watch_lem :
        (other : ActorRef) (c : Context) (q : Spec M) (h : Heap M)
        → c.self_ref ≡ self_of id capacity loc
        → Fits capacity
        → q.is_open ≡ true
        → IsRep capacity loc q h
        → let (result, c', h') = watch other c h in
          (result ≡ ok tt)
          × (watches c' other.actor_id ≡ true)
          × (((m : Map Watcher) × (registered_at other h ≡ some m)
                × (held id (registered_at other h') ≡ true)
                × IsRep capacity loc q h')
              ⊎ ((registered_at other h ≡ none)
                  × IsRep capacity loc (enqueue (terminated other.actor_id) q) h'))
    unfolding watch signal_at_once watcher_registry make_watcher send_own_terminated terminated_sink
    watch_lem other c q h self fits open_ rep = elim (Option-cases (registered_at other h)) [
      | inl e ↦
          let (sent, rep') = signal-IsRep capacity loc other.actor_id q h rep in
          let taken = spec_signal-open other.actor_id q open_ in
          rw (add_closed (watcher_registry other) (make_watcher c.self_ref) h e) (
            rw self (
              sent ∙ ap (λ (p : Result (Unit {0}) ActorTerminated × Spec M). p.0) taken,
              ground (
                arith,
                get-insert other.actor_id other.actor_id (watcher_registry other) c.watched,
              ),
              inr (
                e,
                subst
                    (λ (q' : Spec M).
                      IsRep capacity loc q'
                        ((send_sink (terminated_sink (handle_of capacity loc)) other.actor_id h).1))
                    (ap (λ (p : Result (Unit {0}) ActorTerminated × Spec M). p.1) taken) rep',
              ),
            ))
      | inr (m, e) ↦ rw (add_open (watcher_registry other) (make_watcher c.self_ref) h m e) (
          rw self (
            refl,
            ground (
              arith,
              get-insert other.actor_id other.actor_id (watcher_registry other) c.watched,
            ),
            inl (
              m,
              e,
              ap (held id) (update_self h.registries (watcher_registry other).registry _)
                  ∙ ground (arith, get-or_insert id id (make_watcher (self_of id capacity loc)) m),
              record {
                queued = rep.queued;
                disconnected = rep.disconnected;
                counted = rep.counted;
              },
            ),
          ))
    ]
