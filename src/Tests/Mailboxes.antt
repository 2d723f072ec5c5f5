-- ===== src/Tests/Mailboxes.antt =====
-- Tests of waltz/src/mailbox.rs.
use waltz.Base.{ℕ, ◌+◌, ◌≤◌, ◌≡◌, refl, inl, true, false, none, some, [], ◌∷◌, ok, err, arith}
use waltz.Extern.Oneshot.{Oneshot}
use waltz.Quota.{Repr, reserve, reserve_at, commit, drop, drop_held, asserts}
use waltz.Quota.Sender.{send_at}
use waltz.Base.Cells.{update}
use waltz.Base.Map
use waltz.Actor.{message, terminated, messages}
use waltz.Config.{bounded}
use waltz.Memory.{
  WatcherRegistry, Watcher, counted_sender, mailbox_full, actor_terminated, actor_gone, Heap,
}
use waltz.Mailbox.{add, take, make_mailbox, release_received}
use waltz.Mailbox.Refinement.{
  tells, signals, polls, closes, told, signaled, polled, closed, replies, spec_call, spec_replies,
  replies-spec_replies,
}
use waltz.Mailbox.Laws.{spec_send, spec_signal}
use waltz.Mailbox.Registry.{adds, removes, takes, count}
use waltz.Mailbox.Registry.Races.{
  operate, operates, added_is_taken, removed_is_not_taken, take_closes,
}
use waltz.Mailbox.Interleaving.{
  idle, reserved, polling, received, State, the_quota, reserves, sends, receives, unreserves, Reach,
  here, next,
}
use waltz.Mailbox.Interleaving.Count.{holding, owing}
use waltz.Mailbox.Interleaving.Safety.{IsNew, never_overfull, never_underflows, refused_was_full}
use waltz.Tests.Instances.{incoming_flume, unit_oneshot}

-- No object has been made.
abbrev pub empty_heap : Heap ℕ
empty_heap = record {
  wires = record { counts = λ cell. 0; channels = λ loc. record { items = []; closed = false } };
  registries = λ loc. some [];
  terminated_txs = λ loc. none;
  oneshots = λ loc. Oneshot.channel unit_oneshot;
  dead_letters = [];
}

-- The second message finds a mailbox of capacity 1 full, a terminated signal passes it, and after
-- the end nothing is accepted.
replies-spec_replies_example :
    let (handle, mailbox, h) = make_mailbox (bounded 1) 4 empty_heap in
    replies handle mailbox
      (tells 5 ∷ tells 6 ∷ signals 9 ∷ polls ∷ tells 7 ∷ polls ∷ closes ∷ tells 8 ∷ signals 9 ∷ [])
      h
    ≡ told (ok tt)
      ∷ told (err mailbox_full)
      ∷ signaled (ok tt)
      ∷ polled (some (message 5))
      ∷ told (ok tt)
      ∷ polled (some (terminated 9))
      ∷ closed
      ∷ told (err actor_terminated)
      ∷ signaled (err actor_gone)
      ∷ []
unfolding spec_replies spec_call spec_send spec_signal
replies-spec_replies_example =
    replies-spec_replies (bounded 1) 4 empty_heap
      (tells 5 ∷ tells 6 ∷ signals 9 ∷ polls ∷ tells 7 ∷ polls ∷ closes ∷ tells 8 ∷ signals 9 ∷ [])
      (omega arith)

abbrev registry : WatcherRegistry
registry = record { registry = 3 }

abbrev watcher : ℕ → Watcher
watcher id = record {
  watcher_id = id;
  terminated_sink =
      counted_sender (record { item_tx = id; quota = record { repr = Repr.unbounded } });
}

added_is_taken_example :
    count 5
      (take registry (
        operates registry
          (adds (watcher 6) ∷ removes 7 ∷ adds (watcher 5) ∷ [])
          (operate registry (adds (watcher 5)) empty_heap))).0
    ≡ 1
unfolding add
added_is_taken_example =
    added_is_taken registry (watcher 5) empty_heap
      (adds (watcher 6) ∷ removes 7 ∷ adds (watcher 5) ∷ []) tt refl (tt, (omega arith, (tt, tt)))

removed_is_not_taken_example :
    count 5
      (take registry (
        operates registry
          (adds (watcher 6) ∷ removes 7 ∷ [])
          (operate registry (removes 5) (operate registry (adds (watcher 5)) empty_heap)))).0
    ≡ 0
unfolding operate add Map.or_insert Map.get
removed_is_not_taken_example =
    removed_is_not_taken registry 5 (operate registry (adds (watcher 5)) empty_heap)
      (adds (watcher 6) ∷ removes 7 ∷ []) (refl, refl, tt) (omega arith, (tt, tt))

take_closes_example :
    let h = operates registry (adds (watcher 6) ∷ []) (operate registry takes empty_heap) in
    ((add registry (watcher 5) h).0 ≡ err actor_gone) × ((take registry h).0 ≡ [])
take_closes_example = take_closes registry (watcher 5) empty_heap (adds (watcher 6) ∷ [])

-- A mailbox of capacity 1 and two threads that send to it.
abbrev quiet : State ℕ
quiet = record { wires = empty_heap.wires; senders = idle ∷ idle ∷ []; receiver = polling }

quiet-IsNew : IsNew 4 1 2 (omega arith) 2 quiet
quiet-IsNew = record { unused = refl; nothing_queued = refl; all_idle = refl; is_polling = refl }

-- The first thread has taken the only reservation.
abbrev taken : State ℕ
taken = record {
  wires = record {
    counts = (reserve (the_quota 1 2) (λ cell. 0)).1;
    channels = empty_heap.wires.channels;
  };
  senders = reserved (message 5) (record { held = some (the_quota 1 2) }) ∷ idle ∷ [];
  receiver = polling;
}

quiet-taken : Reach 4 1 2 quiet taken
unfolding reserve reserve_at
quiet-taken =
    next here (reserves [] (idle ∷ []) 5 (record { held = some (the_quota 1 2) }) refl refl refl)

never_overfull_example :
    messages (taken.wires.channels 4).items + holding taken.senders + owing taken.receiver ≤ 1
never_overfull_example = never_overfull 4 1 2 (omega arith) 2 quiet taken quiet-IsNew quiet-taken

-- It has sent, and the receiver has dequeued the message.
abbrev sent_state : State ℕ
sent_state = record {
  wires = record {
    counts = taken.wires.counts;
    channels = (send_at 4 (message 5) taken.wires).1.channels;
  };
  senders = idle ∷ idle ∷ [];
  receiver = polling;
}

abbrev got : State ℕ
got = record {
  wires = record {
    counts = taken.wires.counts;
    channels = update sent_state.wires.channels 4 (record { items = []; closed = false });
  };
  senders = idle ∷ idle ∷ [];
  receiver = received (message 5);
}

taken-got : Reach 4 1 2 quiet got
unfolding send_at commit drop drop_held
taken-got =
    next
      (next quiet-taken
        (sends [] (idle ∷ []) (message 5) (record { held = some (the_quota 1 2) }) refl refl refl))
      (receives (message 5) (record { items = []; closed = false }) refl refl refl)

never_underflows_example : asserts (the_quota 1 2) got.wires.counts ≡ true
never_underflows_example =
    never_underflows 4 1 2 (omega arith) 2 quiet got quiet-IsNew taken-got (inl (5, refl))

-- The receiver has released the message: the count is 0 again.
abbrev released : State ℕ
released = record {
  wires = record {
    counts = release_received {M = ℕ} (the_quota 1 2) (message 5) got.wires.counts;
    channels = got.wires.channels;
  };
  senders = idle ∷ idle ∷ [];
  receiver = polling;
}

taken-released : Reach 4 1 2 taken released
unfolding send_at commit drop drop_held
taken-released =
    next
      (next
        (next here (
          sends [] (idle ∷ []) (message 5) (record { held = some (the_quota 1 2) }) refl refl refl))
        (receives (message 5) (record { items = []; closed = false }) refl refl refl))
      (unreserves (message 5) refl refl)

-- The second thread may still be refused, on the count of the state before.
refused_was_full_example :
    messages (taken.wires.channels 4).items + holding taken.senders + owing taken.receiver ≡ 1
unfolding reserve reserve_at
refused_was_full_example =
    refused_was_full 4 1 2 (omega arith) 2 quiet taken released quiet-IsNew quiet-taken
      taken-released refl refl
