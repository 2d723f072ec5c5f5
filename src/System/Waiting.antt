-- ===== src/System/Waiting.antt =====
-- waltz/src/actor_system.rs: what leaves the wait for the end of the root pending, of all that tasks do
-- to the heap.
use waltz.Base.{
  ℕ, ◌≡◌, ◌≢◌, refl, sym, ap, ◌∙◌, subst, inl, inr, true, false, is_some, none, some, of_some, List,
  [], ◌∷◌, All, ◌==◌, Bool-cases, if-cases, Option-cases, Result-cases, arith,
}
use waltz.Base.Cells.{update, update-ne}
use waltz.Base.Map
use waltz.Base.Map.{Map, values}
use waltz.Extern.Flume.{Flume}
use waltz.Extern.Oneshot.{Oneshot, waiting}
use waltz.Actor.{ActorId, Incoming}
use waltz.Memory.{
  WatcherRegistry, Mailbox, TerminatedSink, counted_sender, root_sink, Watcher, Heap,
}
use waltz.Mailbox.{
  add, remove, take, take_watchers, split, send_sink, send_terminated, recv, release_received,
  try_send_message,
}
use waltz.Reference.{ActorRef, tell}
use waltz.RunLoop.Terminate.{deregister, signal_all}

-- The sink of a mailbox.
abbrev pub IsCounted : TerminatedSink → Type 0
IsCounted (counted_sender sender) = Unit {0}
IsCounted (root_sink sink) = ⊥

abbrev pub AllCounted : Map Watcher → Type 0
AllCounted m = All (λ (w : Watcher). IsCounted w.terminated_sink) (values m)

or_insert-AllCounted :
    (k : ℕ) (w : Watcher) (m : Map Watcher)
    → IsCounted w.terminated_sink
    → AllCounted m
    → AllCounted (Map.or_insert k w m)
unfolding Map.or_insert
or_insert-AllCounted k w [] c h = (c, tt)
or_insert-AllCounted k w ((j, u) ∷ m) c h = elim (Bool-cases (j == k)) [
  | inl e ↦ rw e h
  | inr e ↦ rw e (h.0, or_insert-AllCounted k w m c h.1)
]

remove-AllCounted : (k : ℕ) (m : Map Watcher) → AllCounted m → AllCounted (Map.remove k m)
unfolding Map.remove
remove-AllCounted k [] h = h
remove-AllCounted k ((j, u) ∷ m) h = elim (Bool-cases (j == k)) [
  | inl e ↦ rw e (remove-AllCounted k m h.1)
  | inr e ↦ rw e (h.0, remove-AllCounted k m h.1)
]

module _ {M : Type 0} ⦃flume : Flume (Incoming M)⦄ ⦃oneshot : Oneshot (Unit {0})⦄ where
  -- The oneshot `rx` is pending; registration with the root is open, and no other registry has the
  -- sink of a root.
  pub record Waiting (root rx : ℕ) (h : Heap M) : Type 0 where
    pub only_root :
        (loc : ℕ) (m : Map Watcher) → h.registries loc ≡ some m → loc ≢ root → AllCounted m
    pub is_open : (m : Map Watcher) × (h.registries root ≡ some m)
    pub waits : oneshot.view (h.oneshots rx) ≡ waiting

  module _ (root rx : ℕ) where
    pub same-Waiting :
        (h h' : Heap M)
        → h'.registries ≡ h.registries
        → h'.oneshots ≡ h.oneshots
        → Waiting root rx h
        → Waiting root rx h'
    same-Waiting h h' same_registries same_oneshots v = record {
      only_root = λ loc m e. v.only_root loc m (sym (ap (λ f. f loc) same_registries) ∙ e);
      is_open = (v.is_open.0, ap (λ f. f root) same_registries ∙ v.is_open.1);
      waits = ap (λ f. oneshot.view (f rx)) same_oneshots ∙ v.waits;
    }

    -- A registry is opened or changed.
    pub write-Waiting :
        (h h' : Heap M) (r : ℕ) (m : Map Watcher)
        → (r ≢ root → AllCounted m)
        → h'.registries ≡ update h.registries r (some m)
        → h'.oneshots ≡ h.oneshots
        → Waiting root rx h
        → Waiting root rx h'
    write-Waiting h h' r m counted written same_oneshots v = record {
      only_root = λ loc n e ne. elim (if-cases r loc (some m) (h.registries loc)) [
        | inl (here, e') ↦
            let same : m ≡ n = of_some (sym e' ∙ sym (ap (λ f. f loc) written) ∙ e) in
            subst AllCounted same (counted (λ at_root. ne (sym here ∙ at_root)))
        | inr (away, e') ↦ v.only_root loc n (sym e' ∙ sym (ap (λ f. f loc) written) ∙ e) ne
      ];
      is_open = elim (if-cases r root (some m) (h.registries root)) [
        | inl (here, e) ↦ (m, ap (λ f. f root) written ∙ e)
        | inr (away, e) ↦ (v.is_open.0, ap (λ f. f root) written ∙ e ∙ v.is_open.1)
      ];
      waits = ap (λ f. oneshot.view (f rx)) same_oneshots ∙ v.waits;
    }

    pub add-Waiting :
        (r : WatcherRegistry) (w : Watcher) (h : Heap M)
        → (r.registry ≢ root → IsCounted w.terminated_sink)
        → Waiting root rx h
        → Waiting root rx (add r w h).1
    unfolding add
    add-Waiting r w h counted v = elim (Option-cases (h.registries r.registry)) [
      | inl e ↦ rw (e, add) v
      | inr (m, e) ↦
          rw (e, add)
            (write-Waiting h _ r.registry _
              (λ ne.
                or_insert-AllCounted w.watcher_id w m (counted ne) (v.only_root r.registry m e ne))
              refl refl v)
    ]

    pub remove-Waiting :
        (r : WatcherRegistry) (id : ActorId) (h : Heap M)
        → Waiting root rx h
        → Waiting root rx (remove r id h)
    unfolding remove
    remove-Waiting r id h v = elim (Option-cases (h.registries r.registry)) [
      | inl e ↦ rw (e, remove) v
      | inr (m, e) ↦
          rw (e, remove)
            (write-Waiting h _ r.registry _
              (λ ne. remove-AllCounted id m (v.only_root r.registry m e ne)) refl refl v)
    ]

    pub deregister-Waiting :
        (id : ActorId) (rs : List WatcherRegistry) (h : Heap M)
        → Waiting root rx h
        → Waiting root rx (deregister id rs h)
    unfolding deregister
    deregister-Waiting id [] h v = v
    deregister-Waiting id (r ∷ rs) h v =
        deregister-Waiting id rs (remove r id h) (remove-Waiting r id h v)

    pub send_sink-Waiting :
        (sink : TerminatedSink) (id : ActorId) (h : Heap M)
        → IsCounted sink
        → Waiting root rx h
        → Waiting root rx (send_sink sink id h).1
    unfolding send_sink
    send_sink-Waiting (counted_sender sender) id h c v = same-Waiting h _ refl refl v
    send_sink-Waiting (root_sink sink) id h c v = elim c [ ]

    pub signal_all-Waiting :
        (id : ActorId) (ws : List Watcher) (h : Heap M)
        → All (λ (w : Watcher). IsCounted w.terminated_sink) ws
        → Waiting root rx h
        → Waiting root rx (signal_all id ws h)
    unfolding signal_all send_terminated
    signal_all-Waiting id [] h c v = v
    signal_all-Waiting id (w ∷ ws) h c v =
        signal_all-Waiting id ws (send_terminated w id h).1 c.1
          (send_sink-Waiting w.terminated_sink id h c.0 v)

    pub tell-Waiting :
        (r : ActorRef) (m : M) (h : Heap M) → Waiting root rx h → Waiting root rx (tell r m h)
    unfolding tell try_send_message
    tell-Waiting r m h v = elim (Result-cases (try_send_message r.mailbox_handle m h).0) [
      | inl (_, e) ↦ rw (e, tell) (same-Waiting h _ refl refl v)
      | inr (_, e) ↦ rw (e, tell) (same-Waiting h _ refl refl v)
    ]

    pub recv-Waiting :
        (mailbox : Mailbox) (incoming : Incoming M) (h h' : Heap M)
        → recv mailbox h ≡ some (incoming, h')
        → Waiting root rx h
        → Waiting root rx h'
    unfolding recv
    recv-Waiting mailbox incoming h h' e v =
        elim (Option-cases (flume.recv (h.wires.channels mailbox.incoming_rx))) [
          | inl idle ↦
              let no_item : recv mailbox h ≡ none = rw (idle, recv) refl in
              absurd (nothing (ap is_some (sym e ∙ no_item)))
          | inr ((i, c), arrived) ↦
              let same : recv mailbox h
                  ≡ some (
                    i,
                    record h {
                      wires = record {
                        counts = release_received mailbox.quota i h.wires.counts;
                        channels = update h.wires.channels mailbox.incoming_rx c;
                      };
                    },
                  ) =
                rw (arrived, recv) refl in
              let heap = ap (λ (p : Incoming M × Heap M). p.1) (of_some (sym same ∙ e)) in
              subst (Waiting root rx) heap (same-Waiting h _ refl refl v)
        ]
      where
        nothing : true ≡ false → ⊥
        nothing e' = ground (arith, e')

    -- The end of a task other than the root.
    pub take-Waiting :
        (id : ActorId) (mailbox : Mailbox) (h : Heap M)
        → mailbox.watcher_registry.registry ≢ root
        → Waiting root rx h
        → let (watchers, h') = take_watchers (split mailbox).1 h in
          Waiting root rx (signal_all id watchers h')
    unfolding take_watchers split signal_all
    take-Waiting id mailbox h ne v =
        elim (Option-cases (h.registries mailbox.watcher_registry.registry)) [
          | inl e ↦ rw (e, take_watchers, take) v
          | inr (m, e) ↦
              rw (e, take_watchers, take)
                (signal_all-Waiting id (values m) _
                  (v.only_root mailbox.watcher_registry.registry m e ne)
                  (record {
                    only_root = λ loc n at.
                        elim (if-cases mailbox.watcher_registry.registry loc none
                          (h.registries loc)) [
                            | inl (here, e') ↦ absurd (gone n (sym e' ∙ at))
                            | inr (away, e') ↦ v.only_root loc n (sym e' ∙ at)
                          ];
                    is_open = (
                      v.is_open.0,
                      update-ne h.registries mailbox.watcher_registry.registry none root ne
                          ∙ v.is_open.1,
                    );
                    waits = v.waits;
                  }))
        ]
      where
        gone : (n : Map Watcher) → none ≡ some n → ⊥
        gone n e' = ground (arith, ap is_some e')
