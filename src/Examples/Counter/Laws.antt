-- ===== src/Examples/Counter/Laws.antt =====
-- waltz/examples/counter.rs: the count that a reply carries.
use native.Mathlib.Nat.{mod-eq_of_lt}
use waltz.Base.{ℕ, ◌+◌, ◌^◌, ◌%◌, ◌<◌, ◌≡◌, refl, ap, ◌∙◌, List, [], ◌∷◌, arith}
use waltz.Extern.Flume.{Flume}
use waltz.Extern.Oneshot.{Oneshot}
use waltz.Extern.Watch.{Watch}
use waltz.Actor.{Incoming, message, continue, stop as stop_actor}
use waltz.Reference.{ActorRef, tell}
use waltz.Context.{Context}
use waltz.World.{value, World, run_script}
use waltz.Examples.Receives.{receives, receives-continue}
use waltz.Examples.Counter.{Message, increment, get, stop, count_one, counter}

-- What is asked of the counter before it stops.
pub data Request : Type 0 where
  increments : Request
  asks : ActorRef → (ℕ → Message) → Request

abbrev pub items : List Request → List (Incoming Message) → List (Incoming Message)
items [] rest = rest
items (increments ∷ requests) rest = message increment ∷ items requests rest
items (asks r into ∷ requests) rest = message (get r into) ∷ items requests rest

abbrev pub total : List Request → ℕ
total [] = 0
total (increments ∷ requests) = 1 + total requests
total (asks r into ∷ requests) = total requests

module _ {T : Type 0} ⦃flume : Flume (Incoming Message)⦄ ⦃oneshot : Oneshot (Unit {0})⦄
    ⦃watch : Watch⦄ where
  -- Each reply carries the count of the increments before it.
  abbrev pub replied : ℕ → List Request → World Message T → World Message T
  replied count [] w = w
  replied count (increments ∷ requests) w = replied (count + 1) requests w
  replied count (asks r into ∷ requests) w =
      replied count requests (record w { heap = tell r (into count) w.heap })

  receives-items :
      (requests : List Request) (rest : List (Incoming Message)) (count : ℕ) (c : Context)
      (w : World Message T)
      → count + total requests < 2 ^ 64
      → receives counter (items requests rest) count c w
        ≡ receives counter rest (count + total requests) c (replied count requests w)
  unfolding counter count_one run_script
  receives-items [] rest count c w fits = ap (λ k. receives counter rest k c w) (omega arith)
  receives-items (increments ∷ requests) rest count c w fits =
      let whole : (count + 1) % 2 ^ 64 ≡ count + 1 = mod-eq_of_lt (omega (arith, fits)) in
      receives-continue counter increment (items requests rest) count (count + 1) c c w w
        (ap (λ k. (value (continue k), c, w)) whole)
      ∙ receives-items requests rest (count + 1) c w (omega (arith, fits))
      ∙ ap (λ k. receives counter rest k c (replied (count + 1) requests w)) (omega arith)
  receives-items (asks r into ∷ requests) rest count c w fits =
      receives-continue counter (get r into) (items requests rest) count count c c w
        (record w { heap = tell r (into count) w.heap }) refl
      ∙ receives-items requests rest count c (record w { heap = tell r (into count) w.heap }) fits

  -- Whatever is asked of the counter, each reply carries the count of the increments before it, and the
  -- counter goes on with the count of all, until it is stopped; the count fits a `u64`.
  pub receives-counter :
      (requests : List Request) (rest : List (Incoming Message)) (c : Context) (w : World Message T)
      → total requests < 2 ^ 64
      → (receives counter (items requests []) 0 c w
          ≡ (value (continue (total requests)), c, replied 0 requests w))
        × (receives counter (items requests (message stop ∷ rest)) 0 c w
            ≡ (value stop_actor, c, replied 0 requests w))
  unfolding counter count_one run_script receives
  receives-counter requests rest c w fits = (
    receives-items requests [] 0 c w (omega arith)
        ∙ ap (λ k. (value (continue k), c, replied 0 requests w)) (omega arith),
    receives-items requests (message stop ∷ rest) 0 c w (omega arith),
  )
