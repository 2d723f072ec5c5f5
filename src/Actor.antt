-- ===== src/Actor.antt =====
-- waltz/src/actor.rs and waltz/src/actor_id.rs: what an actor receives and decides. An id is the
-- number of its UUID; ids come from `Uuid::now_v7`, so a new one is an argument where it is made.
use waltz.Base.{ℕ, suc, ◌+◌, ◌≡◌, Bool, true, false, List, [], ◌∷◌, ◌++◌, arith}

abbrev pub ActorId : Type 0
ActorId = ℕ

pub data Incoming (M : Type 0) : Type 0 where
  message : M → Incoming M
  terminated : ActorId → Incoming M

pub data Control (S : Type 0) : Type 0 where
  continue : S → Control S
  stop : Control S

-- `matches!(incoming, Incoming::Message(_))`.
abbrev pub is_message : {M : Type 0} → Incoming M → Bool
is_message (message m) = true
is_message (terminated id) = false

module _ {M : Type 0} where
  -- How many of the items are messages.
  abbrev pub messages : List (Incoming M) → ℕ
  messages [] = 0
  messages (message m ∷ items) = suc (messages items)
  messages (terminated id ∷ items) = messages items

  pub messages-append :
      (xs ys : List (Incoming M)) → messages (xs ++ ys) ≡ messages xs + messages ys
  messages-append [] ys = omega arith
  messages-append (message m ∷ xs) ys = omega (arith, messages-append xs ys)
  messages-append (terminated id ∷ xs) ys = messages-append xs ys
