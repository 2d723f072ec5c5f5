-- ===== src/Examples/Hello.antt =====
-- waltz/examples/hello.rs: an actor that stops at the first item. What it prints is left out.
use waltz.Base.{ℕ}
use waltz.Actor.{Incoming, Control, stop}
use waltz.World.{value, Script, returns, Behaviour}

-- `Greet`, with the name.
pub data Greet : Type 0 where
  greet : ℕ → Greet

unfoldable pub greet_once : Incoming Greet → Unit {0} → Script Greet (Control (Unit {0}))
greet_once incoming state = returns (value stop)

unfoldable pub greeter : Behaviour Greet (Unit {0})
unfolding greet_once
greeter = record { init = returns (value tt); receive = greet_once }
