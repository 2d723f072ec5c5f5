-- ===== src/RunLoop/Notifying.antt =====
-- waltz/src/actor_context.rs: what deregistering from the watched actors and signaling the watchers
-- do to registries and mailboxes.
use waltz.Base.{
  ℕ, ◌+◌, ◌≡◌, refl, inl, inr, Bool, false, none, List, [], ◌∷◌, ◌++◌, All, replicate,
  replicate-add, ◌==◌, if◌then◌else◌, Bool-cases, Option-cases, arith, ap, ◌∙◌, sym, subst,
}
use mathlib.Core.List.{append_assoc, append-nil}
use waltz.Base.Cells.{update_self}
use waltz.Base.Map.{get-remove}
use waltz.Extern.Flume.{Flume}
use waltz.Extern.Oneshot.{Oneshot}
use waltz.Quota.Sender.{CountedSender, try_send_uncounted, send_at}
use waltz.Quota.Laws.{queued-sent, disconnected-sent}
use waltz.Actor.{ActorId, Incoming, terminated}
use waltz.Memory.{WatcherRegistry, TerminatedSink, counted_sender, root_sink, Watcher, Heap}
use waltz.Mailbox.{remove, take, send_terminated, send_sink, send_counted_sink, send_root_sink}
use waltz.Mailbox.Registry.{held, watchers_of}
use waltz.RunLoop.Terminate.{deregister, signal_all}

-- How many of the watchers have their mailbox at a location.
abbrev aims : ℕ → TerminatedSink → ℕ
aims loc (counted_sender sender) = if sender.item_tx == loc then 1 else 0
aims loc (root_sink sink) = 0

abbrev pub aimed : ℕ → List Watcher → ℕ
aimed loc [] = 0
aimed loc (w ∷ ws) = aims loc w.terminated_sink + aimed loc ws

module _ {M : Type 0} ⦃flume : Flume (Incoming M)⦄ ⦃oneshot : Oneshot (Unit {0})⦄ where
  -- Whether the actor is registered in a registry.
  abbrev pub registered : ActorId → Heap M → WatcherRegistry → Bool
  registered id h r = held id (h.registries r.registry)

  remove-registered :
      (r other : WatcherRegistry) (id : ActorId) (h : Heap M)
      → registered id (remove r id h) other
        ≡ (if r.registry == other.registry then false else registered id h other)
  unfolding remove
  remove-registered r other id h = elim (Option-cases (h.registries r.registry)) [
    | inl e ↦ rw (e, remove) (ground arith)
    | inr (m, e) ↦ rw (e, remove) (ground (arith, get-remove id id m))
  ]

  deregister-kept :
      (id : ActorId) (rs : List WatcherRegistry) (r : WatcherRegistry) (h : Heap M)
      → registered id h r ≡ false
      → registered id (deregister id rs h) r ≡ false
  unfolding deregister
  deregister-kept id [] r h e = e
  deregister-kept id (other ∷ rs) r h e =
      deregister-kept id rs r (remove other id h) (ground (arith, remove-registered other r id h))

  pub deregister-All :
      (id : ActorId) (rs : List WatcherRegistry) (h : Heap M)
      → All (λ r. registered id (deregister id rs h) r ≡ false) rs
  unfolding deregister
  deregister-All id [] h = tt
  deregister-All id (r ∷ rs) h = (
    deregister-kept id rs r (remove r id h) (ground (arith, remove-registered r r id h)),
    deregister-All id rs (remove r id h),
  )

  abbrev pub queue : ℕ → Heap M → List (Incoming M)
  queue loc h = flume.queued (h.wires.channels loc)

  abbrev pub is_gone_at : ℕ → Heap M → Bool
  is_gone_at loc h = flume.disconnected (h.wires.channels loc)

  own_queue :
      (sender : CountedSender) (id : ActorId) (h : Heap M)
      → is_gone_at sender.item_tx h ≡ false
      → (queue sender.item_tx (send_counted_sink sender id h).1
          ≡ queue sender.item_tx h ++ terminated id ∷ [])
        × (is_gone_at sender.item_tx (send_counted_sink sender id h).1 ≡ false)
  unfolding send_counted_sink try_send_uncounted send_at
  own_queue sender id h open_ = (
    queued-sent {T = Incoming M} sender.item_tx (terminated id) h.wires.channels open_,
    disconnected-sent {T = Incoming M} sender.item_tx (terminated id) h.wires.channels ∙ open_,
  )

  send_sink-queue :
      (sink : TerminatedSink) (id : ActorId) (loc : ℕ) (h : Heap M)
      → is_gone_at loc h ≡ false
      → let (result, h') = send_sink sink id h in
        (queue loc h' ≡ queue loc h ++ replicate (aims loc sink) (terminated id))
        × (is_gone_at loc h' ≡ false)
  unfolding send_sink send_root_sink send_counted_sink try_send_uncounted send_at
  send_sink-queue (counted_sender sender) id loc h open_ =
      elim (Bool-cases (sender.item_tx == loc)) [
        | inl same ↦
            let e : sender.item_tx ≡ loc = ground arith in
            rw same (
              subst
                (λ at.
                  (queue at (send_counted_sink sender id h).1 ≡ queue at h ++ terminated id ∷ [])
                  × (is_gone_at at (send_counted_sink sender id h).1 ≡ false))
                e (own_queue sender id h (subst (λ at. is_gone_at at h ≡ false) (sym e) open_)))
        | inr differs ↦ rw (differs, queue, is_gone_at) (sym (append-nil (queue loc h)), open_)
      ]
  send_sink-queue (root_sink sink) id loc h open_ =
      elim (Option-cases (h.terminated_txs sink.terminated_tx)) [
        | inl e ↦ rw (e, send_root_sink) (sym (append-nil (queue loc h)), open_)
        | inr (tx, e) ↦ rw (e, send_root_sink) (sym (append-nil (queue loc h)), open_)
      ]

  -- Each watcher whose mailbox is open gets one terminated signal for its registration, behind what
  -- is queued: for every location whose channel is open, however full, and every list of watchers.
  pub signal_all-queue :
      (id : ActorId) (ws : List Watcher) (loc : ℕ) (h : Heap M)
      → is_gone_at loc h ≡ false
      → (queue loc (signal_all id ws h) ≡ queue loc h ++ replicate (aimed loc ws) (terminated id))
        × (is_gone_at loc (signal_all id ws h) ≡ false)
  unfolding signal_all send_terminated
  signal_all-queue id [] loc h open_ = (sym (append-nil (queue loc h)), open_)
  signal_all-queue id (w ∷ ws) loc h open_ =
      let (now, still) = send_sink-queue w.terminated_sink id loc h open_ in
      let (rest, end) = signal_all-queue id ws loc (send_terminated w id h).1 still in
      (
        rest
            ∙ ap (λ l. l ++ replicate (aimed loc ws) (terminated id)) now
            ∙ append_assoc (queue loc h) _ _
            ∙ ap (λ l. queue loc h ++ l)
                (sym (replicate-add (aims loc w.terminated_sink) (aimed loc ws) (terminated id))),
        end,
      )

  remove-wires : (r : WatcherRegistry) (id : ActorId) (h : Heap M) → (remove r id h).wires ≡ h.wires
  unfolding remove
  remove-wires r id h = elim (Option-cases (h.registries r.registry)) [
    | inl e ↦ rw (e, remove) refl
    | inr (m, e) ↦ rw (e, remove) refl
  ]

  pub deregister-wires :
      (id : ActorId) (rs : List WatcherRegistry) (h : Heap M) → (deregister id rs h).wires ≡ h.wires
  unfolding deregister
  deregister-wires id [] h = refl
  deregister-wires id (r ∷ rs) h = deregister-wires id rs (remove r id h) ∙ remove-wires r id h

  send_sink-registries :
      (sink : TerminatedSink) (id : ActorId) (h : Heap M)
      → (send_sink sink id h).1.registries ≡ h.registries
  unfolding send_sink send_counted_sink send_root_sink
  send_sink-registries (counted_sender sender) id h = refl
  send_sink-registries (root_sink sink) id h =
      elim (Option-cases (h.terminated_txs sink.terminated_tx)) [
        | inl e ↦ rw (e, send_root_sink) refl
        | inr (tx, e) ↦ rw (e, send_root_sink) refl
      ]

  pub signal_all-registries :
      (id : ActorId) (ws : List Watcher) (h : Heap M)
      → (signal_all id ws h).registries ≡ h.registries
  unfolding signal_all send_terminated
  signal_all-registries id [] h = refl
  signal_all-registries id (w ∷ ws) h =
      signal_all-registries id ws (send_terminated w id h).1
      ∙ send_sink-registries w.terminated_sink id h

  pub take_watchers-cases :
      (r : WatcherRegistry) (h : Heap M)
      → ((take r h).0 ≡ watchers_of (h.registries r.registry))
        × ((take r h).1.registries r.registry ≡ none)
        × ((take r h).1.wires ≡ h.wires)
  unfolding take
  take_watchers-cases r h = elim (Option-cases (h.registries r.registry)) [
    | inl e ↦ rw (e, take) (refl, e, refl)
    | inr (m, e) ↦ rw (e, take) (refl, update_self h.registries r.registry none, refl)
  ]
