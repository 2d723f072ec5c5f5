-- ===== src/Examples/DeviceManager.antt =====
-- waltz/examples/device_manager.rs: a manager of groups of devices, and a query that averages the
-- readings of a group. Names are numbers, `f64` and its operations are an instance, printing is left
-- out. A `ReplyTo` is the actor that it tells and the conversion that `reply_to` was given.
pub mod Answers
pub mod Laws
use waltz.Base.{ℕ, ◌+◌, ◌^◌, ◌%◌, Bool, Option, none, some, List, [], ◌∷◌, ◌==◌, ltb, if◌then◌else◌}
use waltz.Base.Map
use waltz.Base.Map.{Map, values}
use waltz.Actor.{ActorId, Incoming, message, terminated, Control, continue, stop}
use waltz.Config
use waltz.Config.{ActorConfig, RestartPolicy, restart}
use waltz.Reference.{ActorRef}
use waltz.World.{
  value, error, Script, returns, panic, tells, watches, unwatches, spawns, self_refs, Behaviour,
}

-- What the example uses of `f64`.
pub record Float : Type 1 where
  pub F : Type 0
  pub zero : F
  pub add : F → F → F
  pub divide : F → ℕ → F
  pub is_nan : F → Bool

abbrev pub max_restarts : ℕ
max_restarts = 3

module _ (float : Float) where
  -- The messages of all four actors: `Command`, `GroupMessage`, `QueryMessage`, `DeviceMessage`.
  pub data Message : Type 0 where
    record_command : ℕ → ℕ → float.F → Message
    average : ℕ → ActorRef → (Option float.F → Message) → Message
    shutdown : Message
    group_record : ℕ → float.F → Message
    group_average : ActorRef → (Option float.F → Message) → Message
    start : List ActorRef → ActorRef → (Option float.F → Message) → Message
    reading : ActorId → Option float.F → Message
    device_record : float.F → Message
    read : ActorRef → (Option float.F → Message) → Message

  pub data QueryState : Type 0 where
    starting : QueryState
    running : Map ActorRef → float.F → ℕ → ActorRef → (Option float.F → Message) → QueryState

  -- `retain` by the actor's id.
  unfoldable pub retain : ActorId → Map ActorRef → Map ActorRef
  retain id [] = []
  retain id ((k, r) ∷ m) = if r.actor_id == id then retain id m else (k, r) ∷ retain id m

  -- `DeviceManager::receive`; `group_of` is the behaviour of a group by its name.
  unfoldable pub manage :
      (ℕ → ℕ) → Incoming Message → Map ActorRef → Script Message (Control (Map ActorRef))
  unfolding retain
  manage group_of (message (record_command group device degrees)) groups =
      elim (Map.get group groups) [
        | some r ↦ tells r (group_record device degrees) (returns (value (continue groups)))
        | none ↦ spawns (group_of group) Config.default (λ r. watches r (
            tells r (group_record device degrees)
              (returns (value (continue (Map.insert group r groups))))))
      ]
  manage group_of (message (average group r into)) groups = elim (Map.get group groups) [
    | some g ↦ tells g (group_average r into) (returns (value (continue groups)))
    | none ↦ tells r (into none) (returns (value (continue groups)))
  ]
  manage group_of (message shutdown) groups = returns (value stop)
  manage group_of (message _) groups = returns panic
  manage group_of (terminated id) groups = returns (value (continue (retain id groups)))

  -- A device restarts on failure; `RestartPolicy::new` fails only if the default backoff is invalid.
  unfoldable pub device_config : Option RestartPolicy → ActorConfig
  device_config none = Config.default
  device_config (some policy) = Config.with_supervision_strategy Config.default (restart policy)

  -- `Group::receive`; `device_of` is the behaviour of a device by its name, `query` that of a query.
  unfoldable pub group_devices :
      (ℕ → ℕ) → ℕ → Incoming Message → Map ActorRef → Script Message (Control (Map ActorRef))
  unfolding retain device_config
  group_devices device_of query (message (group_record device degrees)) devices =
      elim (Map.get device devices) [
        | some r ↦ tells r (device_record degrees) (returns (value (continue devices)))
        | none ↦ spawns (device_of device) (device_config (Config.new max_restarts)) (λ r.
            watches r (
              tells r (device_record degrees)
                (returns (value (continue (Map.insert device r devices))))))
      ]
  group_devices device_of query (message (group_average r into)) devices =
      spawns query Config.default
        (λ q. tells q (start (values devices) r into) (returns (value (continue devices))))
  group_devices device_of query (message _) devices = returns panic
  group_devices device_of query (terminated id) devices =
      returns (value (continue (retain id devices)))

  -- `Query::conclude`.
  unfoldable pub conclude :
      Map ActorRef
      → float.F
      → ℕ
      → ActorRef
      → (Option float.F → Message)
      → Script Message (Control QueryState)
  conclude [] sum count r into =
      tells r (into (if ltb 0 count then some (float.divide sum count) else none))
        (returns (value stop))
  conclude (p ∷ pending) sum count r into =
      returns (value (continue (running (p ∷ pending) sum count r into)))

  -- The loop over the devices at the start of a query, with those that are pending.
  unfoldable pub ask_devices :
      List ActorRef
      → Map ActorRef
      → ActorRef
      → (Option float.F → Message)
      → Script Message (Control QueryState)
  ask_devices [] pending r into = returns (value (continue (running pending float.zero 0 r into)))
  ask_devices (d ∷ devices) pending r into = watches d (
      self_refs (λ self.
        tells d (read self (reading d.actor_id))
          (ask_devices devices (Map.insert d.actor_id d pending) r into)))

  -- Only a device that is pending is unwatched.
  unfoldable pub unwatch_pending :
      {A : Type 0} → Option ActorRef → Script Message A → Script Message A
  unwatch_pending none rest = rest
  unwatch_pending (some device) rest = unwatches device rest

  -- The sum and the count behind a reading; the count is a `u32`.
  unfoldable pub summed : Option float.F → float.F → ℕ → float.F × ℕ
  summed none sum count = (sum, count)
  summed (some degrees) sum count = (float.add sum degrees, (count + 1) % 2 ^ 32)

  -- `Query::receive`.
  unfoldable pub query_devices : Incoming Message → QueryState → Script Message (Control QueryState)
  unfolding ask_devices conclude unwatch_pending summed
  query_devices (message (start [] r into)) state = tells r (into none) (returns (value stop))
  query_devices (message (start (d ∷ devices) r into)) state = ask_devices (d ∷ devices) [] r into
  query_devices (message (reading id got)) (running pending sum count r into) =
      let (sum', count') = summed got sum count in
      unwatch_pending (Map.get id pending) (conclude (Map.remove id pending) sum' count' r into)
  query_devices (terminated id) (running pending sum count r into) =
      conclude (Map.remove id pending) sum count r into
  query_devices (message (reading id got)) starting = returns panic
  query_devices (terminated id) starting = returns panic
  query_devices (message _) state = returns panic

  -- `Device::receive`: an invalid reading fails the device.
  unfoldable pub measure :
      Incoming Message → Option float.F → Script Message (Control (Option float.F))
  measure (message (device_record degrees)) last =
      if float.is_nan degrees then returns error else returns (value (continue (some degrees)))
  measure (message (read r into)) last = tells r (into last) (returns (value (continue last)))
  measure (message _) last = returns panic
  measure (terminated id) last = returns panic

  unfoldable pub query : Behaviour Message QueryState
  unfolding query_devices
  query = record { init = returns (value starting); receive = query_devices }

  unfoldable pub device : Behaviour Message (Option float.F)
  unfolding measure
  device = record { init = returns (value none); receive = measure }
