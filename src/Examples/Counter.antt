-- ===== src/Examples/Counter.antt =====
-- waltz/examples/counter.rs: an actor that counts and tells its count.
pub mod Laws
use waltz.Base.{ℕ, ◌+◌, ◌^◌, ◌%◌}
use waltz.Actor.{Incoming, message, terminated, Control, continue, stop as stop_actor}
use waltz.Reference.{ActorRef}
use waltz.World.{value, panic, Script, returns, tells, Behaviour}

-- A `ReplyTo` is the actor that it tells and the conversion of the reply.
pub data Message : Type 0 where
  increment : Message
  get : ActorRef → (ℕ → Message) → Message
  stop : Message
  -- A reply to another actor.
  count_is : ℕ → Message

-- `Counter::receive`; the count is a `u64`.
unfoldable pub count_one : Incoming Message → ℕ → Script Message (Control ℕ)
count_one (message increment) count = returns (value (continue ((count + 1) % 2 ^ 64)))
count_one (message (get r into)) count = tells r (into count) (returns (value (continue count)))
count_one (message stop) count = returns (value stop_actor)
count_one (message (count_is n)) count = returns panic
count_one (terminated id) count = returns panic

unfoldable pub counter : Behaviour Message ℕ
unfolding count_one
counter = record { init = returns (value 0); receive = count_one }
