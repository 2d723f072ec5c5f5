-- ===== src/Mailbox/Registry.antt =====
-- waltz/src/mailbox.rs: the watcher registry under any order of its operations. Each takes the
-- lock, so that operations of several threads happen one after another.
pub mod Races
use waltz.Base.{
  ℕ, suc, ◌+◌, ◌≤◌, ◌≡◌, refl, ◌≢◌, ◌⊎◌, inl, inr, Bool, true, false, Option, none, some, List, [],
  ◌∷◌, ◌++◌, All, Result, ok, err, ◌==◌, if◌then◌else◌, Option-cases, is_ok, is_some, arith,
}
use waltz.Base.Cells.{update}
use waltz.Base.Map
use waltz.Base.Map.{Map, values, get-or_insert, get-remove}
use waltz.Extern.Flume.{Flume}
use waltz.Extern.Oneshot.{Oneshot}
use waltz.Actor.{ActorId, Incoming}
use waltz.Memory.{WatcherRegistry, Watcher, ActorTerminated, actor_gone, Heap}
use waltz.Mailbox.{add, remove, take}

-- One operation on the registry, by whichever thread.
pub data Op : Type 0 where
  adds : Watcher → Op
  removes : ActorId → Op
  takes : Op

-- The content of the registry's cell: `none` once registration is closed.
abbrev pub Content : Type 0
Content = Option (Map Watcher)

-- What an operation makes of the content.
pub stored : Op → Content → Content
stored op none = none
stored (adds w) (some watchers) = some (Map.or_insert w.watcher_id w watchers)
stored (removes id) (some watchers) = some (Map.remove id watchers)
stored takes (some watchers) = none

pub all_stored : List Op → Content → Content
all_stored [] c = c
all_stored (op ∷ ops) c = all_stored ops (stored op c)

-- An operation that neither removes `id` nor closes registration.
abbrev pub Spares : ActorId → Op → Type 0
Spares id (adds w) = Unit {0}
Spares id (removes other) = other ≢ id
Spares id takes = ⊥

-- An operation that does not register `id`.
abbrev pub Avoids : ActorId → Op → Type 0
Avoids id (adds w) = w.watcher_id ≢ id
Avoids id (removes other) = Unit {0}
Avoids id takes = Unit {0}

-- How many of the watchers have the id.
abbrev pub count : ActorId → List Watcher → ℕ
count id [] = 0
count id (w ∷ ws) = if w.watcher_id == id then suc (count id ws) else count id ws

-- Each watcher stands under its id, and each id once.
abbrev pub IsKeyed : Map Watcher → Type 0
IsKeyed [] = Unit {0}
IsKeyed ((k, w) ∷ m) = (w.watcher_id ≡ k) × (Map.get k m ≡ none) × IsKeyed m

abbrev pub IsWell : Content → Type 0
IsWell none = Unit {0}
IsWell (some m) = IsKeyed m

abbrev pub held : ActorId → Content → Bool
held id none = false
held id (some m) = is_some (Map.get id m)

abbrev pub watchers_of : Content → List Watcher
watchers_of none = []
watchers_of (some m) = values m

count-values :
    (id : ActorId) (m : Map Watcher)
    → IsKeyed m
    → count id (values m) ≡ (if is_some (Map.get id m) then 1 else 0)
unfolding Map.get
count-values id [] k = refl
count-values id ((j, w) ∷ m) k = ground (arith, count-values id m k.2)

or_insert-IsKeyed :
    (w : Watcher) (m : Map Watcher) → IsKeyed m → IsKeyed (Map.or_insert w.watcher_id w m)
unfolding Map.or_insert Map.get
or_insert-IsKeyed w [] k = (refl, refl, tt)
or_insert-IsKeyed w ((j, v) ∷ m) k =
    ground (arith, or_insert-IsKeyed w m k.2, get-or_insert w.watcher_id j w m)

remove-IsKeyed : (id : ActorId) (m : Map Watcher) → IsKeyed m → IsKeyed (Map.remove id m)
unfolding Map.remove Map.get
remove-IsKeyed id [] k = tt
remove-IsKeyed id ((j, v) ∷ m) k = ground (arith, remove-IsKeyed id m k.2, get-remove id j m)

pub stored-IsWell : (op : Op) (c : Content) → IsWell c → IsWell (stored op c)
unfolding stored
stored-IsWell op none k = tt
stored-IsWell (adds w) (some m) k = or_insert-IsKeyed w m k
stored-IsWell (removes id) (some m) k = remove-IsKeyed id m k
stored-IsWell takes (some m) k = tt

pub all_stored-IsWell : (ops : List Op) (c : Content) → IsWell c → IsWell (all_stored ops c)
unfolding all_stored
all_stored-IsWell [] c k = k
all_stored-IsWell (op ∷ ops) c k = all_stored-IsWell ops (stored op c) (stored-IsWell op c k)

stored-Spares :
    (id : ActorId) (op : Op) (c : Content)
    → Spares id op
    → held id c ≡ true
    → held id (stored op c) ≡ true
unfolding stored
stored-Spares id op none sp h = cc
stored-Spares id (adds w) (some m) sp h = ground (arith, get-or_insert w.watcher_id id w m)
stored-Spares id (removes other) (some m) sp h = ground (arith, get-remove other id m)
stored-Spares id takes (some m) sp h = absurd sp

all_stored-Spares :
    (id : ActorId) (ops : List Op) (c : Content)
    → All (Spares id) ops
    → held id c ≡ true
    → held id (all_stored ops c) ≡ true
unfolding all_stored
all_stored-Spares id [] c sp h = h
all_stored-Spares id (op ∷ ops) c sp h =
    all_stored-Spares id ops (stored op c) sp.1 (stored-Spares id op c sp.0 h)

stored-Avoids :
    (id : ActorId) (op : Op) (c : Content)
    → Avoids id op
    → held id c ≡ false
    → held id (stored op c) ≡ false
unfolding stored
stored-Avoids id op none av h = refl
stored-Avoids id (adds w) (some m) av h = ground (arith, get-or_insert w.watcher_id id w m)
stored-Avoids id (removes other) (some m) av h = ground (arith, get-remove other id m)
stored-Avoids id takes (some m) av h = refl

all_stored-Avoids :
    (id : ActorId) (ops : List Op) (c : Content)
    → All (Avoids id) ops
    → held id c ≡ false
    → held id (all_stored ops c) ≡ false
unfolding all_stored
all_stored-Avoids id [] c av h = h
all_stored-Avoids id (op ∷ ops) c av h =
    all_stored-Avoids id ops (stored op c) av.1 (stored-Avoids id op c av.0 h)

pub all_stored_closed : (ops : List Op) → all_stored ops none ≡ none
unfolding all_stored stored
all_stored_closed [] = refl
all_stored_closed (op ∷ ops) = all_stored_closed ops
