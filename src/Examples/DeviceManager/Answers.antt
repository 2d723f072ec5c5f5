-- ===== src/Examples/DeviceManager/Answers.antt =====
-- waltz/examples/device_manager.rs: what answers to a query hold, and the devices that are pending behind
-- them.
use native.Mathlib.Nat.{mod-eq_of_lt}
use mathlib.Core.Option
use mathlib.Core.List.{cons-ne-nil}
use waltz.Base.{
  ℕ, Bool, true, false, ◌+◌, ◌^◌, ◌<◌, ◌≡◌, refl, sym, ap, ◌∙◌, inl, inr, Option, none, some, List,
  [], ◌∷◌, length, ltb, ◌==◌, if◌then◌else◌, if-cases, is_some, false_is_not_true, arith,
}
use waltz.Base.Map
use waltz.Base.Map.{Map, get-remove, remove_absent}
use waltz.Extern.Flume.{Flume}
use waltz.Extern.Oneshot.{Oneshot}
use waltz.Actor.{ActorId, Incoming, message, terminated}
use waltz.Memory.{WatcherRegistry, Heap}
use waltz.Mailbox
use waltz.Context.{Context}
use waltz.Reference.{ActorRef, watcher_registry}
use waltz.Examples.DeviceManager.{Float, Message, reading, summed}

-- Each device is pending under its id.
abbrev pub IsKeyed : Map ActorRef → Type 0
IsKeyed pending = (id : ActorId) (d : ActorRef) → Map.get id pending ≡ some d → d.actor_id ≡ id

-- Exactly the pending devices are watched, each by its registry.
abbrev pub WatchesPending : Map WatcherRegistry → Map ActorRef → Type 0
WatchesPending watched pending =
    (id : ActorId) → Map.get id watched ≡ Option.map watcher_registry (Map.get id pending)

abbrev pub own_id : Context → ActorId
own_id c = c.self_ref.actor_ref.actor_id

pub remove-IsKeyed :
    (k : ActorId) (pending : Map ActorRef) → IsKeyed pending → IsKeyed (Map.remove k pending)
remove-IsKeyed k pending keyed id d e = elim (if-cases k id none (Map.get id pending)) [
  | inl (here, gone) ↦
      absurd (false_is_not_true (ap is_some (sym gone ∙ sym (get-remove k id pending) ∙ e)))
  | inr (away, kept) ↦ keyed id d (sym kept ∙ sym (get-remove k id pending) ∙ e)
]

pub remove-WatchesPending :
    (k : ActorId) (watched : Map WatcherRegistry) (pending : Map ActorRef)
    → WatchesPending watched pending
    → WatchesPending (Map.remove k watched) (Map.remove k pending)
remove-WatchesPending k watched pending same id =
    get-remove k id watched
    ∙ ap (λ o. if k == id then none else o) (same id)
    ∙ sym (map_if (k == id) (Map.get id pending))
    ∙ ap (Option.map watcher_registry) (sym (get-remove k id pending))
  where
    map_if :
        (b : Bool) (o : Option ActorRef)
        → Option.map watcher_registry (if b then none else o)
          ≡ (if b then none else Option.map watcher_registry o)
    map_if true o = refl
    map_if false o = refl

module _ (float : Float) where
  -- The answers for devices: a reading, or none of a device that has terminated.
  pub data Answer : Type 0 where
    reads : ActorId → Option float.F → Answer
    ends : ActorId → Answer

  abbrev pub incoming : Answer → Incoming (Message float)
  incoming (reads id got) = message (reading id got)
  incoming (ends id) = terminated id

  abbrev pub all_incoming : List Answer → List (Incoming (Message float))
  all_incoming [] = []
  all_incoming (a ∷ answers) = incoming a ∷ all_incoming answers

  abbrev pub about : Answer → ActorId
  about (reads id got) = id
  about (ends id) = id

  -- What is left of a map by device behind the answers.
  abbrev pub remaining : {V : Type 0} → List Answer → Map V → Map V
  remaining [] m = m
  remaining (a ∷ answers) m = remaining answers (Map.remove (about a) m)

  -- The temperatures that the answers hold, in their order.
  abbrev pub readings : List Answer → List float.F
  readings [] = []
  readings (reads id (some degrees) ∷ answers) = degrees ∷ readings answers
  readings (reads id none ∷ answers) = readings answers
  readings (ends id ∷ answers) = readings answers

  -- `sum` and the temperatures, added from the left.
  abbrev pub plus : float.F → List float.F → float.F
  plus sum [] = sum
  plus sum (degrees ∷ more) = plus (float.add sum degrees) more

  pub summed-plus :
      (id : ActorId) (got : Option float.F) (sum : float.F) (count : ℕ)
      → count + length (readings (reads id got ∷ [])) < 2 ^ 32
      → summed float got sum count
        ≡ (plus sum (readings (reads id got ∷ [])), count + length (readings (reads id got ∷ [])))
  unfolding summed
  summed-plus id none sum count fits = ap (λ n. (sum, n)) (omega arith)
  summed-plus id (some degrees) sum count fits =
      ap (λ n. (float.add sum degrees, n)) (mod-eq_of_lt (omega (arith, fits)))

  pub plus-cons :
      (a : Answer) (answers : List Answer) (sum : float.F)
      → (plus sum (readings (a ∷ answers)) ≡ plus (plus sum (readings (a ∷ []))) (readings answers))
        × (length (readings (a ∷ answers)) ≡ length (readings (a ∷ [])) + length (readings answers))
  plus-cons (reads id (some degrees)) answers sum = (refl, omega arith)
  plus-cons (reads id none) answers sum = (refl, omega arith)
  plus-cons (ends id) answers sum = (refl, omega arith)

  remaining_none : (answers : List Answer) → remaining {V = ActorRef} answers [] ≡ []
  unfolding Map.remove
  remaining_none [] = refl
  remaining_none (a ∷ answers) = remaining_none answers

  -- A device that is pending behind the answers was pending.
  pub left_some :
      (answers : List Answer) (m : Map ActorRef) (p : ℕ × ActorRef) (ps : Map ActorRef)
      → remaining answers m ≡ p ∷ ps
      → (q : ℕ × ActorRef) × (qs : Map ActorRef) × (m ≡ q ∷ qs)
  left_some answers [] p ps e = absurd (cons-ne-nil p ps (sym e ∙ remaining_none answers))
  left_some answers (q ∷ qs) p ps e = (q, qs, refl)

  pub remaining-IsKeyed :
      (answers : List Answer) (pending : Map ActorRef)
      → IsKeyed pending
      → IsKeyed (remaining answers pending)
  remaining-IsKeyed [] pending keyed = keyed
  remaining-IsKeyed (a ∷ answers) pending keyed =
      remaining-IsKeyed answers (Map.remove (about a) pending)
        (remove-IsKeyed (about a) pending keyed)

  pub remaining-WatchesPending :
      (answers : List Answer) (watched : Map WatcherRegistry) (pending : Map ActorRef)
      → WatchesPending watched pending
      → WatchesPending (remaining answers watched) (remaining answers pending)
  remaining-WatchesPending [] watched pending same = same
  remaining-WatchesPending (a ∷ answers) watched pending same =
      remaining-WatchesPending answers (Map.remove (about a) watched) (Map.remove (about a) pending)
        (remove-WatchesPending (about a) watched pending same)

  -- The mean of the temperatures, if there is one.
  abbrev pub mean : float.F → ℕ → Option float.F
  mean total count = if ltb 0 count then some (float.divide total count) else none

  module _ ⦃flume : Flume (Incoming (Message float))⦄ ⦃oneshot : Oneshot (Unit {0})⦄ where
    -- The registration of the query `own` is removed from a pending device that sends a reading.
    abbrev pub released :
        Answer → Map ActorRef → ActorId → Heap (Message float) → Heap (Message float)
    released (reads id got) pending own h = elim (Map.get id pending) [
      | none ↦ h
      | some device ↦ Mailbox.remove (watcher_registry device) own h
    ]
    released (ends id) pending own h = h

    abbrev pub all_released :
        List Answer → Map ActorRef → ActorId → Heap (Message float) → Heap (Message float)
    all_released [] pending own h = h
    all_released (a ∷ answers) pending own h =
        all_released answers (Map.remove (about a) pending) own (released a pending own h)
