-- ===== src/Examples/Supervision/Laws.antt =====
-- waltz/examples/supervision.rs: what one run of the loader does.
use native.Mathlib.Nat.{mod-eq_of_lt}
use waltz.Base.{
  ℕ, ◌+◌, ◌^◌, ◌%◌, ◌<◌, ◌≡◌, ◌≢◌, refl, ap, ◌∙◌, List, [], ◌∷◌, length, false, ◌==◌, All, arith,
}
use waltz.Extern.Flume.{Flume}
use waltz.Extern.Oneshot.{Oneshot}
use waltz.Extern.Watch.{Watch}
use waltz.Actor.{Incoming, message, continue, stop}
use waltz.Context.{Context}
use waltz.World.{value, error, returns, World, run_script}
use waltz.Examples.Receives.{receives, receives-continue}
use waltz.Examples.Supervision.{Message, load, finish, toxic, load_one, loader}

load_one-continue :
    (v count : ℕ)
    → v ≢ toxic
    → count + 1 < 2 ^ 64
    → load_one (message (load v)) count ≡ returns (value (continue (count + 1)))
unfolding load_one
load_one-continue v count harmless fits =
    let differs : v == toxic ≡ false = ground arith in
    let whole : (count + 1) % 2 ^ 64 ≡ count + 1 = mod-eq_of_lt fits in rw (differs, whole) refl

-- The items of a list of values, and what follows them.
abbrev pub loads : List ℕ → List (Incoming Message) → List (Incoming Message)
loads [] rest = rest
loads (v ∷ vs) rest = message (load v) ∷ loads vs rest

module _ {T : Type 0} ⦃flume : Flume (Incoming Message)⦄ ⦃oneshot : Oneshot (Unit {0})⦄
    ⦃watch : Watch⦄ where
  -- The loader counts the values that are not toxic, one by one, and leaves what follows to the next.
  receives-loads :
      (vs : List ℕ) (rest : List (Incoming Message)) (count : ℕ) (c : Context) (w : World Message T)
      → All (λ v. v ≢ toxic) vs
      → count + length vs < 2 ^ 64
      → receives loader (loads vs rest) count c w ≡ receives loader rest (count + length vs) c w
  unfolding loader run_script
  receives-loads [] rest count c w harmless fits =
      ap (λ k. receives loader rest k c w) (omega arith)
  receives-loads (v ∷ vs) rest count c w harmless fits =
      receives-continue loader (load v) (loads vs rest) count (count + 1) c c w w (
        ap (λ script. run_script script c w)
          (load_one-continue v count harmless.0 (omega (arith, fits))))
      ∙ receives-loads vs rest (count + 1) c w harmless.1 (omega (arith, fits))
      ∙ ap (λ k. receives loader rest k c w) (omega arith)

  -- A run of the loader fails at the first toxic value, whatever is queued behind it, having loaded
  -- all that came before, and without a toxic value it stops at the end of the values; the count
  -- of the values fits a `u64`.
  pub receives-loader :
      (vs : List ℕ) (rest : List (Incoming Message)) (c : Context) (w : World Message T)
      → All (λ v. v ≢ toxic) vs
      → length vs < 2 ^ 64
      → (receives loader (loads vs []) 0 c w ≡ (value (continue (length vs)), c, w))
        × (receives loader (loads vs (message (load toxic) ∷ rest)) 0 c w ≡ (error, c, w))
        × (receives loader (loads vs (message finish ∷ rest)) 0 c w ≡ (value stop, c, w))
  unfolding loader load_one run_script receives
  receives-loader vs rest c w harmless fits =
      let whole : 0 + length vs ≡ length vs = omega arith in
      (
        receives-loads vs [] 0 c w harmless (omega arith)
            ∙ ap (λ k. receives loader [] k c w) whole,
        receives-loads vs (message (load toxic) ∷ rest) 0 c w harmless (omega arith),
        receives-loads vs (message finish ∷ rest) 0 c w harmless (omega arith),
      )
