-- ===== src/System/Laws.antt =====
-- waltz/src/actor_system.rs: the registration with the root.
use waltz.Base.{◌≡◌, refl, sym, ap, ◌∙◌, ◌⊎◌, inl, inr, false, none, some, ok, Option-cases, arith}
use waltz.Base.Cells.{update, update_self}
use waltz.Base.Map
use waltz.Base.Map.{Map, values, get-or_insert}
use waltz.Extern.Flume.{Flume}
use waltz.Extern.Oneshot.{Oneshot}
use waltz.Actor.{ActorId, Incoming}
use waltz.Memory.{WatcherRegistry, RootTerminatedSink, root_sink, Watcher, Heap}
use waltz.Context.Watching.{add_closed, add_open}
use waltz.Mailbox.{take}
use waltz.Mailbox.Registry.{held}
use waltz.Reference.{watcher_registry}
use waltz.RunLoop.Terminate.{signal_all}
use waltz.System.{ActorSystem, signal_at_once, register_root, poll_terminated}
use waltz.System.Signaling.{
  IsFresh, waiting-poll_terminated, send_root_sink-signaled_heap, signaled_heap-poll_terminated,
  signal_all-poll_terminated,
}

module _ {M : Type 0} ⦃flume : Flume (Incoming M)⦄ ⦃oneshot : Oneshot (Unit {0})⦄ where
  taken :
      (r : WatcherRegistry) (m : Map Watcher) (h : Heap M)
      → h.registries r.registry ≡ some m
      → take r h ≡ (values m, record h { registries = update h.registries r.registry none })
  unfolding take
  taken r m h e = rw (e, take) refl

  -- The root is never lost between its spawn and its registration. For a new watcher's id and a fresh
  -- oneshot, `register_root` does not panic. Either registration is open: then the id is registered,
  -- the wait is pending, and when the watchers are taken from there and signaled, as at the root's
  -- end, the wait returns success. Or the root has already ended: then the wait returns success at
  -- once.
  pub register_root_lem :
      (system : ActorSystem) (sink : RootTerminatedSink) (watcher_id : ActorId) (h : Heap M)
      → IsFresh system sink h
      → held watcher_id (h.registries (watcher_registry system.root).registry) ≡ false
      → let (result, h') = register_root system.root sink watcher_id h in
        let own = (watcher_registry system.root).registry in
        let (watchers, ended) = take (watcher_registry system.root) h' in
        (result ≡ ok tt)
        × (((m : Map Watcher) × (h'.registries own ≡ some m)
              × (Map.get watcher_id m
                  ≡ some (record { watcher_id = watcher_id; terminated_sink = root_sink sink }))
              × (poll_terminated system h' ≡ none)
              × (poll_terminated system (signal_all system.root.actor_id watchers ended)
                  ≡ some (ok tt)))
            ⊎ ((h.registries own ≡ none) × (poll_terminated system h' ≡ some (ok tt))))
  unfolding register_root signal_at_once
  register_root_lem system sink watcher_id h fresh new =
      let root = watcher_registry system.root in
      let watcher : Watcher = record {
        watcher_id = watcher_id;
        terminated_sink = root_sink sink;
      } in
      elim (Option-cases (h.registries root.registry)) [
        | inl e ↦ rw (add_closed root watcher h e) (
            rw (send_root_sink-signaled_heap system sink system.root.actor_id h fresh)
              (refl, inr (e, signaled_heap-poll_terminated system sink h fresh)))
        | inr (m, e) ↦
            let unused : Map.get watcher_id m ≡ none =
              unheld m (ap (held watcher_id) (sym e) ∙ new) in
            let m' = Map.or_insert watcher_id watcher m in
            let there = update_self h.registries root.registry (some m') in
            rw (add_open root watcher h m e) (
              refl,
              inl (
                m',
                there,
                ground (arith, get-or_insert watcher_id watcher_id watcher m, unused),
                waiting-poll_terminated system _ fresh.unused,
                rw
                    (taken root m'
                      (record h { registries = update h.registries root.registry (some m') }) there)
                    (signal_all-poll_terminated system sink system.root.actor_id watcher_id watcher
                      m _ refl unused (record { held_tx = fresh.held_tx; unused = fresh.unused })),
              ),
            )
      ]
    where
      unheld : (m : Map Watcher) → held watcher_id (some m) ≡ false → Map.get watcher_id m ≡ none
      unheld m e = ground (arith, e)
