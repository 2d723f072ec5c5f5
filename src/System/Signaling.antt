-- ===== src/System/Signaling.antt =====
-- waltz/src/actor_system.rs: when the wait for the root's termination is complete.
use waltz.Base.{
  ℕ, ◌≡◌, ◌≢◌, refl, sym, ap, ◌∙◌, subst, ◌⊎◌, inl, inr, true, false, is_some, none, some, of_some,
  ok, err, List, [], ◌∷◌, ◌==◌, Option-cases, Bool-cases, if-cases, false_is_not_true, arith,
}
use waltz.Base.Cells.{Cells, update, update_self, update-ne}
use waltz.Base.Map
use waltz.Base.Map.{Map, values}
use waltz.Extern.Flume.{Flume}
use waltz.Extern.Oneshot.{Oneshot, View, waiting, sent, view_send}
use waltz.Actor.{ActorId, Incoming}
use waltz.Memory.{
  RootTerminatedSink, TerminatedSink, counted_sender, root_sink, Watcher, actor_gone, Heap,
}
use waltz.Mailbox.{send_root_sink, send_sink, send_terminated}
use waltz.RunLoop.Terminate.{signal_all}
use waltz.System.{ActorSystem, poll_terminated}

-- One of the watchers has the sink.
abbrev Reaches : RootTerminatedSink → List Watcher → Type 0
Reaches sink [] = ⊥
Reaches sink (w ∷ ws) = (w.terminated_sink ≡ root_sink sink) ⊎ Reaches sink ws

or_insert-Reaches :
    (sink : RootTerminatedSink) (id : ActorId) (w : Watcher) (m : Map Watcher)
    → w.terminated_sink ≡ root_sink sink
    → Map.get id m ≡ none
    → Reaches sink (values (Map.or_insert id w m))
unfolding Map.or_insert Map.get
or_insert-Reaches sink id w [] own unused = inl own
or_insert-Reaches sink id w ((j, u) ∷ m) own unused = elim (Bool-cases (j == id)) [
  | inl e ↦ absurd (false_is_not_true (ap is_some (sym unused ∙ taken e)))
  | inr e ↦ rw e (inr (or_insert-Reaches sink id w m own (away e)))
]
  where
    taken : (j == id) ≡ true → Map.get id ((j, u) ∷ m) ≡ some u
    taken e = rw e refl

    away : (j == id) ≡ false → Map.get id m ≡ none
    away e = ground (arith, unused, e)

module _ {M : Type 0} ⦃flume : Flume (Incoming M)⦄ ⦃oneshot : Oneshot (Unit {0})⦄ where
  -- The system's oneshot is unused and its sender lies behind the sink.
  pub record IsFresh (system : ActorSystem) (sink : RootTerminatedSink) (h : Heap M) : Type 0 where
    pub held_tx : h.terminated_txs sink.terminated_tx ≡ some system.terminated_rx
    pub unused : oneshot.view (h.oneshots system.terminated_rx) ≡ waiting

  sent-poll_terminated :
      (system : ActorSystem) (h : Heap M)
      → oneshot.view (h.oneshots system.terminated_rx) ≡ sent tt
      → poll_terminated system h ≡ some (ok tt)
  unfolding poll_terminated
  sent-poll_terminated system h e = rw (oneshot.poll_lem (h.oneshots system.terminated_rx), e) refl

  pub waiting-poll_terminated :
      (system : ActorSystem) (h : Heap M)
      → oneshot.view (h.oneshots system.terminated_rx) ≡ waiting
      → poll_terminated system h ≡ none
  unfolding poll_terminated
  waiting-poll_terminated system h e =
      rw (oneshot.poll_lem (h.oneshots system.terminated_rx), e) refl

  -- What the signal leaves.
  abbrev pub signaled_heap : ActorSystem → RootTerminatedSink → Heap M → Heap M
  signaled_heap system sink h = record h {
    terminated_txs = update h.terminated_txs sink.terminated_tx none;
    oneshots =
        update h.oneshots system.terminated_rx
          (oneshot.send tt (h.oneshots system.terminated_rx)).1;
  }

  pub send_root_sink-signaled_heap :
      (system : ActorSystem) (sink : RootTerminatedSink) (id : ActorId) (h : Heap M)
      → IsFresh system sink h
      → send_root_sink sink id h ≡ (ok tt, signaled_heap system sink h)
  unfolding send_root_sink
  send_root_sink-signaled_heap system sink id h fresh = rw (fresh.held_tx, send_root_sink) refl

  signaled_heap-sent :
      (system : ActorSystem) (sink : RootTerminatedSink) (h : Heap M)
      → IsFresh system sink h
      → oneshot.view ((signaled_heap system sink h).oneshots system.terminated_rx) ≡ sent tt
  signaled_heap-sent system sink h fresh =
      ap oneshot.view (update_self h.oneshots system.terminated_rx _)
      ∙ oneshot.view-send tt _
      ∙ ap (λ v. (view_send tt v).1) fresh.unused

  pub signaled_heap-poll_terminated :
      (system : ActorSystem) (sink : RootTerminatedSink) (h : Heap M)
      → IsFresh system sink h
      → poll_terminated system (signaled_heap system sink h) ≡ some (ok tt)
  signaled_heap-poll_terminated system sink h fresh =
      sent-poll_terminated system (signaled_heap system sink h)
        (signaled_heap-sent system sink h fresh)

  own_sent :
      (system : ActorSystem) (sink : RootTerminatedSink) (id : ActorId) (h : Heap M)
      → IsFresh system sink h
      → oneshot.view ((send_sink (root_sink sink) id h).1.oneshots system.terminated_rx) ≡ sent tt
  unfolding send_sink
  own_sent system sink id h fresh =
      rw (send_root_sink-signaled_heap system sink id h fresh)
        (signaled_heap-sent system sink h fresh)

  send_root_sink_used :
      (sink : RootTerminatedSink) (id : ActorId) (h : Heap M)
      → h.terminated_txs sink.terminated_tx ≡ none
      → send_root_sink sink id h ≡ (err actor_gone, h)
  unfolding send_root_sink
  send_root_sink_used sink id h e = rw (e, send_root_sink) refl

  -- The root's signal completes the wait for the system's termination, and only once: behind the
  -- signal, a wait that was pending returns success, and a second signal is refused and changes
  -- nothing.
  send_root_sink_lem :
      (system : ActorSystem) (sink : RootTerminatedSink) (id other : ActorId) (h : Heap M)
      → IsFresh system sink h
      → let (result, h') = send_root_sink sink id h in
        (poll_terminated system h ≡ none)
        × (result ≡ ok tt)
        × (poll_terminated system h' ≡ some (ok tt))
        × (send_root_sink sink other h' ≡ (err actor_gone, h'))
  unfolding send_root_sink
  send_root_sink_lem system sink id other h fresh =
      rw (send_root_sink-signaled_heap system sink id h fresh) (
        waiting-poll_terminated system h fresh.unused,
        refl,
        signaled_heap-poll_terminated system sink h fresh,
        send_root_sink_used sink other (signaled_heap system sink h)
            (update_self h.terminated_txs sink.terminated_tx none),
      )

  -- The wait is complete.
  abbrev IsSent : ActorSystem → Heap M → Type 0
  IsSent system h = oneshot.view (h.oneshots system.terminated_rx) ≡ sent tt

  sent_on :
      (system : ActorSystem) (tx : ℕ) (h : Heap M) (cells : Cells oneshot.Channel)
      → cells ≡ update h.oneshots tx (oneshot.send tt (h.oneshots tx)).1
      → (v : View (Unit {0})) → (view_send tt v).1 ≡ sent tt
      → oneshot.view (h.oneshots system.terminated_rx) ≡ v
      → (oneshot.view (cells system.terminated_rx) ≡ sent tt)
        ⊎ ((tx ≢ system.terminated_rx) × (oneshot.view (cells system.terminated_rx) ≡ v))
  sent_on system tx h cells e v taken there =
      elim (if-cases tx system.terminated_rx (oneshot.send tt (h.oneshots tx)).1
        (h.oneshots system.terminated_rx)) [
          | inl (same, e') ↦ inl (
              ap (λ f. oneshot.view (f system.terminated_rx)) e
              ∙ ap oneshot.view e'
              ∙ oneshot.view-send tt (h.oneshots tx)
              ∙ ap (λ loc. (view_send tt (oneshot.view (h.oneshots loc))).1) same
              ∙ ap (λ u. (view_send tt u).1) there
              ∙ taken)
          | inr (away, e') ↦
              inr (
                away,
                ap (λ f. oneshot.view (f system.terminated_rx)) e ∙ ap oneshot.view e' ∙ there,
              )
        ]

  -- Whatever sink of a root is signaled, a complete wait stays complete.
  send_root_sink-IsSent :
      (system : ActorSystem) (other : RootTerminatedSink) (id : ActorId) (h : Heap M)
      → IsSent system h
      → IsSent system (send_root_sink other id h).1
  unfolding send_root_sink
  send_root_sink-IsSent system other id h done =
      elim (Option-cases (h.terminated_txs other.terminated_tx)) [
        | inl e ↦ rw (e, send_root_sink) done
        | inr (tx, e) ↦
            rw (e, send_root_sink)
              (elim (sent_on system tx h _ refl (sent tt) refl done) [
                | inl now ↦ now
                | inr (away, kept) ↦ kept
              ])
      ]

  -- It leaves the system's oneshot to its own sink, or completes the wait.
  send_root_sink-IsFresh :
      (system : ActorSystem) (sink other : RootTerminatedSink) (id : ActorId) (h : Heap M)
      → IsFresh system sink h
      → IsFresh system sink (send_root_sink other id h).1
        ⊎ IsSent system (send_root_sink other id h).1
  unfolding send_root_sink
  send_root_sink-IsFresh system sink other id h fresh =
      elim (Option-cases (h.terminated_txs other.terminated_tx)) [
        | inl e ↦ rw (e, send_root_sink) (inl fresh)
        | inr (tx, e) ↦
            rw (e, send_root_sink)
              (elim (sent_on system tx h _ refl waiting refl fresh.unused) [
                | inl now ↦ inr now
                | inr (away, kept) ↦ inl (record {
                  held_tx =
                      update-ne h.terminated_txs other.terminated_tx none sink.terminated_tx
                        (λ same. away (of_some (sym e ∙ ap h.terminated_txs same ∙ fresh.held_tx)))
                      ∙ fresh.held_tx;
                  unused = kept;
                })
              ])
      ]

  send_sink-IsSent :
      (system : ActorSystem) (other : TerminatedSink) (id : ActorId) (h : Heap M)
      → IsSent system h
      → IsSent system (send_sink other id h).1
  unfolding send_sink
  send_sink-IsSent system (counted_sender sender) id h done = done
  send_sink-IsSent system (root_sink other) id h done = send_root_sink-IsSent system other id h done

  send_sink-IsFresh :
      (system : ActorSystem) (sink : RootTerminatedSink) (other : TerminatedSink) (id : ActorId)
      (h : Heap M)
      → IsFresh system sink h
      → IsFresh system sink (send_sink other id h).1 ⊎ IsSent system (send_sink other id h).1
  unfolding send_sink
  send_sink-IsFresh system sink (counted_sender sender) id h fresh =
      inl (record { held_tx = fresh.held_tx; unused = fresh.unused })
  send_sink-IsFresh system sink (root_sink other) id h fresh =
      send_root_sink-IsFresh system sink other id h fresh

  signal_all-IsSent :
      (system : ActorSystem) (id : ActorId) (ws : List Watcher) (h : Heap M)
      → IsSent system h
      → IsSent system (signal_all id ws h)
  unfolding signal_all send_terminated
  signal_all-IsSent system id [] h done = done
  signal_all-IsSent system id (w ∷ ws) h done =
      signal_all-IsSent system id ws (send_terminated w id h).1
        (send_sink-IsSent system w.terminated_sink id h done)

  signal_all-Reaches :
      (system : ActorSystem) (sink : RootTerminatedSink) (id : ActorId) (ws : List Watcher)
      (h : Heap M)
      → Reaches sink ws
      → IsFresh system sink h
      → IsSent system (signal_all id ws h)
  unfolding signal_all send_terminated
  signal_all-Reaches system sink id [] h there fresh = elim there [ ]
  signal_all-Reaches system sink id (w ∷ ws) h (inl own) fresh =
      signal_all-IsSent system id ws (send_terminated w id h).1 (
        subst (λ (s : TerminatedSink). IsSent system (send_sink s id h).1) (sym own)
          (own_sent system sink id h fresh))
  signal_all-Reaches system sink id (w ∷ ws) h (inr later) fresh =
      elim (send_sink-IsFresh system sink w.terminated_sink id h fresh) [
        | inl still ↦ signal_all-Reaches system sink id ws (send_terminated w id h).1 later still
        | inr done ↦ signal_all-IsSent system id ws (send_terminated w id h).1 done
      ]

  -- If the root ends while a registration holds the sink, the signals to its watchers complete the
  -- wait.
  pub signal_all-poll_terminated :
      (system : ActorSystem) (sink : RootTerminatedSink) (id watcher_id : ActorId) (w : Watcher)
      (m : Map Watcher) (h : Heap M)
      → w.terminated_sink ≡ root_sink sink
      → Map.get watcher_id m ≡ none
      → IsFresh system sink h
      → poll_terminated system (signal_all id (values (Map.or_insert watcher_id w m)) h)
        ≡ some (ok tt)
  signal_all-poll_terminated system sink id watcher_id w m h own unused fresh =
      sent-poll_terminated system _ (
        signal_all-Reaches system sink id (values (Map.or_insert watcher_id w m)) h
          (or_insert-Reaches sink watcher_id w m own unused) fresh)
