-- ===== src/Examples/DeviceManager/Laws.antt =====
-- waltz/examples/device_manager.rs: what a query adds up, and what it answers.
use mathlib.Core.Option
use mathlib.Core.List.{append-nil}
use waltz.Base.{
  ℕ, ◌+◌, ◌^◌, ◌<◌, ◌≡◌, refl, sym, ap, ◌∙◌, subst, inl, inr, Option, none, some, List, [], ◌∷◌,
  ◌++◌, length, Option-cases, arith,
}
use waltz.Base.Map
use waltz.Base.Map.{Map, get-remove, remove_absent}
use waltz.Extern.Flume.{Flume}
use waltz.Extern.Oneshot.{Oneshot}
use waltz.Extern.Watch.{Watch}
use waltz.Actor.{ActorId, Incoming, Control, continue, stop}
use waltz.Mailbox
use waltz.Context
use waltz.Context.{Context, take_watched_for}
use waltz.Reference.{ActorRef, watcher_registry, tell}
use waltz.World.{value, Script, World, run_script}
use waltz.Examples.Receives.{proceed, receives}
use waltz.Examples.DeviceManager.{
  Float, Message, QueryState, running, conclude, unwatch_pending, query_devices, query,
}
use waltz.Examples.DeviceManager.Answers.{
  Answer, reads, ends, IsKeyed, WatchesPending, own_id, remove-IsKeyed, remove-WatchesPending,
  incoming, all_incoming, about, remaining, readings, plus, summed-plus, plus-cons, left_some,
  remaining-IsKeyed, remaining-WatchesPending, mean, released, all_released,
}

module _ (float : Float) where
  module _ {T : Type 0} ⦃flume : Flume (Incoming (Message float))⦄ ⦃oneshot : Oneshot (Unit {0})⦄
      ⦃watch : Watch⦄ where
    -- A pending device is unwatched, for another nothing happens.
    unwatch_pending-released :
        (id : ActorId) (got : Option float.F) (pending : Map ActorRef)
        (rest : Script (Message float) (Control (QueryState float))) (c : Context)
        (w : World (Message float) T)
        → IsKeyed pending
        → WatchesPending c.watched pending
        → run_script (unwatch_pending float (Map.get id pending) rest) c w
          ≡ run_script rest
              (record c { watched = Map.remove id c.watched })
              (record w { heap = released float (reads id got) pending (own_id c) w.heap })
    unfolding unwatch_pending run_script Context.unwatch
    unwatch_pending-released id got pending rest c w keyed same =
        elim (Option-cases (Map.get id pending)) [
          | inl e ↦
              let gone : Map.get id c.watched ≡ none =
                same id ∙ ap (Option.map watcher_registry) e in
              rw (e, unwatch_pending, released)
                (ap (λ m. run_script rest (record c { watched = m }) w)
                  (sym (remove_absent id c.watched gone)))
          | inr (d, e) ↦
              let there : Map.get d.actor_id c.watched ≡ some (watcher_registry d) =
                ap (λ k. Map.get k c.watched) (keyed id d e)
                ∙ same id
                ∙ ap (Option.map watcher_registry) e in
              rw (e, unwatch_pending, released)
                (rw (there, run_script, Context.unwatch)
                  (ap
                    (λ k.
                      run_script rest (record c { watched = Map.remove k c.watched })
                        (record w { heap = Mailbox.remove (watcher_registry d) (own_id c) w.heap }))
                    (keyed id d e)))
        ]

    conclude_pending :
        (pending : Map ActorRef) (sum : float.F) (count : ℕ) (r : ActorRef)
        (into : Option float.F → Message float) (p : ℕ × ActorRef) (ps : Map ActorRef) (c : Context)
        (w : World (Message float) T)
        → pending ≡ p ∷ ps
        → run_script (conclude float pending sum count r into) c w
          ≡ (value (continue (running pending sum count r into)), c, w)
    unfolding conclude run_script
    conclude_pending pending sum count r into p ps c w e =
        subst
          (λ m.
            run_script (conclude float m sum count r into) c w
            ≡ (value (continue (running m sum count r into)), c, w))
          (sym e) refl

    -- What a query makes of one answer while a device is pending: it goes on to `conclude`.
    answered :
        (a : Answer float) (rest : List (Incoming (Message float))) (pending : Map ActorRef)
        (sum : float.F) (count : ℕ) (r : ActorRef) (into : Option float.F → Message float)
        (p : ℕ × ActorRef) (ps : Map ActorRef) (c : Context) (w : World (Message float) T)
        → pending ≡ p ∷ ps
        → IsKeyed pending
        → WatchesPending c.watched pending
        → count + length (readings float (a ∷ [])) < 2 ^ 32
        → receives (query float) (incoming float a ∷ rest) (running pending sum count r into) c w
          ≡ proceed (receives (query float) rest) (
              run_script
                (conclude float
                  (Map.remove (about float a) pending)
                  (plus float sum (readings float (a ∷ [])))
                  (count + length (readings float (a ∷ [])))
                  r
                  into)
                (record c { watched = Map.remove (about float a) c.watched })
                (record w { heap = released float a pending (own_id c) w.heap }))
    unfolding receives query query_devices take_watched_for
    answered (reads id got) rest pending sum count r into p ps c w e keyed same fits =
        ap (proceed (receives (query float) rest)) (
          unwatch_pending-released id got pending _ c w keyed same
          ∙ ap
              (λ (t : float.F × ℕ).
                run_script (conclude float (Map.remove id pending) t.0 t.1 r into)
                  (record c { watched = Map.remove id c.watched })
                  (record w { heap = released float (reads id got) pending (own_id c) w.heap }))
              (summed-plus float id got sum count fits))
    answered (ends id) rest pending sum count r into p ps c w e keyed same fits =
        let c' : Context = record c { watched = Map.remove id c.watched } in
        elim (Option-cases (Map.get id pending)) [
          | inl gone ↦
              let unwatched = same id ∙ ap (Option.map watcher_registry) gone in
              rw (unwatched, receives)
                (ap (λ n. receives (query float) rest (running pending sum n r into) c' w)
                    (omega arith)
                  ∙ sym (
                      ap (proceed (receives (query float) rest)) (
                        ap (λ m. run_script (conclude float m sum (count + 0) r into) c' w)
                          (remove_absent id pending gone)
                        ∙ conclude_pending pending sum (count + 0) r into p ps c' w e)))
          | inr (d, there) ↦
              let watched = same id ∙ ap (Option.map watcher_registry) there in
              rw (watched, receives)
                (ap
                  (λ n.
                    proceed (receives (query float) rest)
                      (run_script (conclude float (Map.remove id pending) sum n r into) c' w))
                  (omega arith))
        ]

    -- As long as a device is pending behind the answers, the query goes on.
    receives-answers :
        (answers : List (Answer float)) (more : List (Incoming (Message float)))
        (pending : Map ActorRef) (sum : float.F) (count : ℕ) (r : ActorRef)
        (into : Option float.F → Message float) (p : ℕ × ActorRef) (ps : Map ActorRef) (c : Context)
        (w : World (Message float) T)
        → remaining float answers pending ≡ p ∷ ps
        → IsKeyed pending
        → WatchesPending c.watched pending
        → count + length (readings float answers) < 2 ^ 32
        → receives
            (query float)
            (all_incoming float answers ++ more)
            (running pending sum count r into)
            c
            w
          ≡ receives
              (query float)
              more
              (running
                (remaining float answers pending)
                (plus float sum (readings float answers))
                (count + length (readings float answers))
                r
                into)
              (record c { watched = remaining float answers c.watched })
              (record w { heap = all_released float answers pending (own_id c) w.heap })
    unfolding proceed receives
    receives-answers [] more pending sum count r into p ps c w e keyed same fits =
        ap (λ n. receives (query float) more (running pending sum n r into) c w) (omega arith)
    receives-answers (a ∷ answers) more pending sum count r into p ps c w e keyed same fits =
        let (q, qs, here) = left_some float (a ∷ answers) pending p ps e in
        let (q', qs', behind) =
          left_some float answers (Map.remove (about float a) pending) p ps e in
        let c' : Context = record c { watched = Map.remove (about float a) c.watched } in
        let w' : World (Message float) T = record w {
          heap = released float a pending (own_id c) w.heap;
        } in
        let (sums, counts) = plus-cons float a answers sum in
        let counted : count + length (readings float (a ∷ [])) + length (readings float answers)
            ≡ count + length (readings float (a ∷ answers)) =
          omega (arith, counts) in
        answered a (all_incoming float answers ++ more) pending sum count r into q qs c w here keyed
          same (omega (arith, fits, counts))
        ∙ ap (proceed (receives (query float) (all_incoming float answers ++ more)))
            (conclude_pending (Map.remove (about float a) pending) _ _ r into q' qs' c' w' behind)
        ∙ receives-answers answers more (Map.remove (about float a) pending) _ _ r into p ps c' w' e
            (remove-IsKeyed (about float a) pending keyed)
            (remove-WatchesPending (about float a) c.watched pending same)
            (omega (arith, fits, counts))
        ∙ ap
            (λ (t : float.F × ℕ).
              receives (query float) more
                (running (remaining float answers (Map.remove (about float a) pending)) t.0 t.1 r
                  into)
                (record c' { watched = remaining float answers c'.watched })
                (record w' {
                  heap =
                      all_released float answers (Map.remove (about float a) pending) (own_id c)
                        w'.heap;
                }))
            (λ i. (sym sums i, counted i))

    answered_last :
        (a : Answer float) (rest : List (Incoming (Message float))) (pending : Map ActorRef)
        (sum : float.F) (count : ℕ) (r : ActorRef) (into : Option float.F → Message float)
        (p : ℕ × ActorRef) (ps : Map ActorRef) (c : Context) (w : World (Message float) T)
        → pending ≡ p ∷ ps
        → Map.remove (about float a) pending ≡ []
        → IsKeyed pending
        → WatchesPending c.watched pending
        → count + length (readings float (a ∷ [])) < 2 ^ 32
        → receives (query float) (incoming float a ∷ rest) (running pending sum count r into) c w
          ≡ (
            value stop,
            record c { watched = Map.remove (about float a) c.watched },
            record w {
              heap =
                  tell r
                    (into (
                      mean float
                        (plus float sum (readings float (a ∷ [])))
                        (count + length (readings float (a ∷ [])))))
                    (released float a pending (own_id c) w.heap);
            },
          )
    unfolding proceed conclude run_script
    answered_last a rest pending sum count r into p ps c w e only keyed same fits =
        answered a rest pending sum count r into p ps c w e keyed same fits
        ∙ ap
            (λ m. proceed (receives (query float) rest) (
              run_script
                (conclude float m (plus float sum (readings float (a ∷ [])))
                  (count + length (readings float (a ∷ []))) r into)
                (record c { watched = Map.remove (about float a) c.watched })
                (record w { heap = released float a pending (own_id c) w.heap })))
            only

    -- A query that watches exactly its pending devices, each under its id, and whose count fits a
    -- `u32`. As long as a device is pending behind the answers, it goes on: it has then added the
    -- temperatures among the answers, in their order, and counted them, it still watches exactly the
    -- devices from which no answer came, and it is no longer registered with a device that sent a reading.
    -- The answer for the last pending device ends it: whatever is queued behind, it tells the asker the
    -- mean of all temperatures, or that there is none, and stops.
    pub receives-query :
        (answers : List (Answer float)) (last : Answer float)
        (more : List (Incoming (Message float))) (pending : Map ActorRef) (sum : float.F)
        (count : ℕ) (r : ActorRef) (into : Option float.F → Message float) (p : ℕ × ActorRef)
        (ps : Map ActorRef) (c : Context) (w : World (Message float) T)
        → IsKeyed pending
        → WatchesPending c.watched pending
        → remaining float answers pending ≡ p ∷ ps
        → Map.remove (about float last) (remaining float answers pending) ≡ []
        → count + length (readings float answers) + length (readings float (last ∷ [])) < 2 ^ 32
        → let total = plus float sum (readings float answers) in
          let counted = count + length (readings float answers) in
          let watched = remaining float answers c.watched in
          let heap = all_released float answers pending (own_id c) w.heap in
          (receives
              (query float)
              (all_incoming float answers)
              (running pending sum count r into)
              c
              w
            ≡ (
              value (continue (running (remaining float answers pending) total counted r into)),
              record c { watched = watched },
              record w { heap = heap },
            ))
          × (receives
                (query float)
                (all_incoming float answers ++ incoming float last ∷ more)
                (running pending sum count r into)
                c
                w
              ≡ (
                value stop,
                record c { watched = Map.remove (about float last) watched },
                record w {
                  heap =
                      tell r
                        (into (
                          mean float
                            (plus float total (readings float (last ∷ [])))
                            (counted + length (readings float (last ∷ [])))))
                        (released float last (remaining float answers pending) (own_id c) heap);
                },
              ))
    unfolding receives
    receives-query answers last more pending sum count r into p ps c w keyed same e only fits =
        let few : count + length (readings float answers) < 2 ^ 32 = omega (arith, fits) in
        (
          ap (λ l. receives (query float) l (running pending sum count r into) c w)
                (sym (append-nil (all_incoming float answers)))
              ∙ receives-answers answers [] pending sum count r into p ps c w e keyed same few,
          receives-answers answers (incoming float last ∷ more) pending sum count r into p ps c w e
                keyed same few
              ∙ answered_last last more (remaining float answers pending) _ _ r into p ps _ _ e only
                  (remaining-IsKeyed float answers pending keyed)
                  (remaining-WatchesPending float answers c.watched pending same) fits,
        )
