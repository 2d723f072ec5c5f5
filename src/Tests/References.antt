-- ===== src/Tests/References.antt =====
-- Tests of waltz/src/actor_ref.rs, waltz/src/ask.rs, the watches of waltz/src/actor_context.rs and
-- the root of waltz/src/actor_system.rs.
use waltz.Base.{ℕ, ◌≡◌, refl, ◌⊎◌, true, false, none, some, [], ◌∷◌, ok, err, arith}
use waltz.Base.Map
use waltz.Base.Map.{Map}
use waltz.Base.Cells.{update}
use waltz.Extern.Oneshot.{Oneshot, waiting, forsaken}
use waltz.Actor.{message, terminated}
use waltz.Config.{bounded, unbounded}
use waltz.Memory.{WatcherRegistry, Watcher, RootTerminatedSink, root_sink, Heap}
use waltz.Mailbox.{make_mailbox, take}
use waltz.RunLoop.Terminate.{signal_all}
use waltz.Mailbox.Laws.{Spec, IsRep, handle_of, spec_send, enqueue, make_mailbox-IsRep}
use waltz.Mailbox.Registry.{held}
use waltz.Reference.{ActorRef, watcher_registry, tell}
use waltz.Reference.Ask.{timed_out, Asks, ask_poll, ask_reply_to, reply}
use waltz.Reference.Laws.{letters, tell_lem, ask_poll_lem, reply-ask_poll, late_reply}
use waltz.Context.{Context, take_watched_for, watch, unwatch}
use waltz.Context.Watching.{watches, unwatch_lem, watch_lem, self_of, registered_at}
use waltz.System.{ActorSystem, register_root, poll_terminated}
use waltz.System.Signaling.{IsFresh}
use waltz.System.Laws.{register_root_lem}
use waltz.Tests.Instances.{incoming_flume, unit_oneshot, number_oneshot, reply_timeout}
use waltz.Tests.Mailboxes.{empty_heap}

-- A mailbox of capacity 1 at 4.
abbrev heap : Heap ℕ
heap = (make_mailbox (bounded 1) 4 empty_heap).2

abbrev empty : Spec ℕ
empty = record { items = []; is_open = true }

heap-IsRep : IsRep (bounded 1) 4 empty heap
heap-IsRep = (make_mailbox-IsRep (bounded 1) 4 empty_heap).2

abbrev filled : Spec ℕ
filled = record { items = message 5 ∷ []; is_open = true }

abbrev pub actor : ActorRef
actor = record { actor_id = 3; mailbox_handle = handle_of (bounded 1) 4 }

tell_lem_example :
    let (result, q) = spec_send (bounded 1) 5 empty in
    let h = tell actor 5 heap in
    IsRep (bounded 1) 4 q h × (h.dead_letters ≡ letters 3 result heap.dead_letters)
tell_lem_example = tell_lem 3 (bounded 1) 4 5 empty heap (omega arith) heap-IsRep

-- The ask at 0 waits.
abbrev asks : Asks ℕ
asks = record { replies = λ loc. waiting; late_replies = [] }

ask_poll_lem_example :
    let (outcome, s) = ask_poll 9 0 true asks in
    (outcome ≡ some (err (timed_out 9)))
    × (Oneshot.view number_oneshot (s.replies 0) ≡ forsaken)
    × (s.late_replies ≡ [])
ask_poll_lem_example = ask_poll_lem 9 0 true asks

reply-ask_poll_example :
    let s = reply (ask_reply_to 3 0) 8 asks in
    ((ask_poll 9 0 true s).0 ≡ some (ok 8)) × (s.late_replies ≡ [])
reply-ask_poll_example = reply-ask_poll 3 9 0 true 8 asks refl

late_reply_example :
    let (outcome, s) = ask_poll 9 0 true asks in
    let s' = reply (ask_reply_to 3 0) 8 s in
    (outcome ≡ some (err (timed_out 9)))
    × (s'.late_replies ≡ 3 ∷ [])
    × (Oneshot.view number_oneshot (s'.replies 0) ≡ forsaken)
late_reply_example = late_reply 3 9 0 8 asks refl

-- The context of the actor 3, which watches the actor 6.
abbrev pub context : Context
context = record {
  self_ref = self_of 3 (bounded 1) 4;
  stopping = 5;
  watched = (6, record { registry = 7 }) ∷ [];
}

abbrev pub other : ActorRef
other = record { actor_id = 6; mailbox_handle = handle_of unbounded 7 }

unwatch_lem_example :
    let (c, h) = unwatch other context heap in
    ((take_watched_for 6 c).0 ≡ false)
    × (watches c 8 ≡ watches context 8)
    × ((Map.get 6 context.watched ≡ none)
        ⊎ ((r : WatcherRegistry) × (Map.get 6 context.watched ≡ some r)
            × (held 3 (h.registries r.registry) ≡ false)))
unwatch_lem_example = unwatch_lem other context heap 8

-- The actor 6 has ended.
abbrev ended : Heap ℕ
ended = record heap { registries = update heap.registries 7 none }

ended-IsRep : IsRep (bounded 1) 4 empty ended
ended-IsRep = record {
  queued = heap-IsRep.queued;
  disconnected = heap-IsRep.disconnected;
  counted = heap-IsRep.counted;
}

watch_lem_example :
    let (result, c, h) = watch other context ended in
    (result ≡ ok tt)
    × (watches c 6 ≡ true)
    × (((m : Map Watcher) × (registered_at other ended ≡ some m)
          × (held 3 (registered_at other h) ≡ true)
          × IsRep (bounded 1) 4 empty h)
        ⊎ ((registered_at other ended ≡ none)
            × IsRep (bounded 1) 4 (enqueue (terminated 6) empty) h))
watch_lem_example =
    watch_lem 3 (bounded 1) 4 other context empty ended refl (omega arith) refl ended-IsRep

-- The root's oneshot is at 9.
abbrev system : ActorSystem
system = record { root = actor; terminated_rx = 9 }

abbrev sink : RootTerminatedSink
sink = record { terminated_tx = 8; stopping_tx = 10 }

abbrev started : Heap ℕ
started = record heap { terminated_txs = update heap.terminated_txs 8 (some 9) }

started-IsFresh : IsFresh system sink started
unfolding make_mailbox
started-IsFresh = record { held_tx = refl; unused = refl }

register_root_lem_example :
    let (result, h) = register_root actor sink 11 started in
    let (watchers, ended_root) = take (watcher_registry actor) h in
    (result ≡ ok tt)
    × (((m : Map Watcher) × (h.registries 4 ≡ some m)
          × (Map.get 11 m ≡ some (record { watcher_id = 11; terminated_sink = root_sink sink }))
          × (poll_terminated system h ≡ none)
          × (poll_terminated system (signal_all 3 watchers ended_root) ≡ some (ok tt)))
        ⊎ ((started.registries 4 ≡ none) × (poll_terminated system h ≡ some (ok tt))))
unfolding watcher_registry make_mailbox Map.get
register_root_lem_example = register_root_lem system sink 11 started started-IsFresh refl
