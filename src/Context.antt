-- ===== src/Context.antt =====
-- waltz/src/actor_context.rs: the context of an actor, up to the children it stops (World.antt).
pub mod Watching
use waltz.Base.{ℕ, Bool, Option, none, some, List, [], ◌∷◌, Result, ok, err, is_some}
use waltz.Base.Map
use waltz.Base.Map.{Map}
use waltz.Extern.Flume.{Flume}
use waltz.Extern.Oneshot.{Oneshot}
use waltz.Actor.{ActorId, Incoming}
use waltz.Memory.{WatcherRegistry, ActorTerminated, Heap}
use waltz.Mailbox.{add, remove}
use waltz.Reference.{ActorRef, SelfRef, watcher_registry, make_watcher, send_own_terminated, tell}
use waltz.Reference.Ask.{ReplyTo}

-- `stopping` is the location of the channel of which the context holds both ends.
pub record Context : Type 0 where
  pub self_ref : SelfRef
  pub stopping : ℕ
  pub watched : Map WatcherRegistry

-- `ActorContext::new`, with its new channel at `stopping`.
unfoldable pub new : SelfRef → ℕ → Context
new self_ref stopping = record { self_ref = self_ref; stopping = stopping; watched = [] }

-- `ActorContext::take_watched_for`: whether the actor was watched; it no longer is.
unfoldable pub take_watched_for : ActorId → Context → Bool × Context
take_watched_for other_id c =
    (is_some (Map.get other_id c.watched), record c { watched = Map.remove other_id c.watched })

-- `ActorContext::take_watched`.
unfoldable pub take_watched : Context → Map WatcherRegistry × Context
take_watched c = (c.watched, record c { watched = [] })

module _ {M : Type 0} ⦃flume : Flume (Incoming M)⦄ ⦃oneshot : Oneshot (Unit {0})⦄ where
  -- `if registration.is_err() { self.self_ref.send_terminated(..) }`: an error of the result is the
  -- panic of `expect`.
  unfoldable pub signal_at_once :
      SelfRef
      → ActorId
      → Result (Unit {0}) ActorTerminated
      → Heap M
      → Result (Unit {0}) ActorTerminated × Heap M
  signal_at_once self other_id (ok _) h = (ok tt, h)
  signal_at_once self other_id (err e) h = send_own_terminated self other_id h

  -- `ActorContext::watch`.
  unfoldable pub watch :
      ActorRef → Context → Heap M → Result (Unit {0}) ActorTerminated × Context × Heap M
  watch other c h =
      let registry = watcher_registry other in
      let (registration, h') = add registry (make_watcher c.self_ref) h in
      let (result, h'') = signal_at_once c.self_ref other.actor_id registration h' in
      (result, record c { watched = Map.insert other.actor_id registry c.watched }, h'')

  -- `ActorContext::unwatch`.
  unfoldable pub unwatch : ActorRef → Context → Heap M → Context × Heap M
  unwatch other c h = elim (Map.get other.actor_id c.watched) [
    | none ↦ (c, h)
    | some registry ↦ (
      record c { watched = Map.remove other.actor_id c.watched },
      remove registry c.self_ref.actor_ref.actor_id h,
    )
  ]

  -- `ActorContext::reply_to`: the reply is told to this actor.
  unfoldable pub reply_to : {R : Type 0} → (R → M) → Context → ReplyTo R (Heap M)
  reply_to into_message c = record {
    send_reply = λ r h. tell c.self_ref.actor_ref (into_message r) h;
  }
