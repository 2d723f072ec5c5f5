-- ===== src/Extern/Flume.antt =====
-- The unbounded channel of the crate `flume`. `queued` reads the items that wait, oldest first;
-- `disconnected` is true once the only receiver has been dropped.
use waltz.Base.{
  ◌≡◌, refl, Bool, true, false, Option, none, some, List, [], ◌∷◌, ◌++◌, Result, ok, err,
  if◌then◌else◌, arith,
}

pub record Flume (T : Type 0) : Type 1 where
  -- One channel: both halves act on it.
  pub Channel : Type 0
  pub queued : Channel → List T
  pub disconnected : Channel → Bool
  -- `flume::unbounded()`.
  pub unbounded : Channel
  -- `Sender::send`, which hands the item back on failure.
  pub send : T → Channel → Result (Unit {0}) T × Channel
  -- One poll of `Receiver::recv_async`: `none` while nothing is queued and a sender is alive.
  pub recv : Channel → Option (T × Channel)
  -- `Receiver::drain`.
  pub drain : Channel → List T × Channel
  -- The drop of the receiver.
  pub close : Channel → Channel
  pub queued-unbounded : queued unbounded ≡ []
  pub disconnected-unbounded : disconnected unbounded ≡ false
  pub send_result : (t : T) (c : Channel) → (send t c).0 ≡ (if disconnected c then err t else ok tt)
  pub queued-send :
      (t : T) (c : Channel) → disconnected c ≡ false → queued (send t c).1 ≡ queued c ++ t ∷ []
  pub queued-send_failed :
      (t : T) (c : Channel) → disconnected c ≡ true → queued (send t c).1 ≡ queued c
  pub disconnected-send : (t : T) (c : Channel) → disconnected (send t c).1 ≡ disconnected c
  pub recv_empty : (c : Channel) → queued c ≡ [] → recv c ≡ none
  pub recv_first :
      (c : Channel) (t : T) (ts : List T)
      → queued c ≡ t ∷ ts
      → (c' : Channel) × (recv c ≡ some (t, c'))
        × (queued c' ≡ ts)
        × (disconnected c' ≡ disconnected c)
  pub drain_items : (c : Channel) → (drain c).0 ≡ queued c
  pub queued-drain : (c : Channel) → queued (drain c).1 ≡ []
  pub disconnected-drain : (c : Channel) → disconnected (drain c).1 ≡ disconnected c
  pub disconnected-close : (c : Channel) → disconnected (close c) ≡ true
  -- What a racing send left behind stays there.
  pub queued-close : (c : Channel) → queued (close c) ≡ queued c

-- A channel that meets the interface, to run the model with: a list and a flag.
pub record ListChannel (T : Type 0) : Type 0 where
  pub items : List T
  pub closed : Bool

module _ {T : Type 0} where
  abbrev pub list_recv_at : List T → Bool → Option (T × ListChannel T)
  list_recv_at [] closed = none
  list_recv_at (t ∷ ts) closed = some (t, record { items = ts; closed = closed })

  abbrev pub list_send : T → ListChannel T → Result (Unit {0}) T × ListChannel T
  list_send t c =
      if c.closed
      then (err t, c)
      else (ok tt, record { items = c.items ++ t ∷ []; closed = c.closed })

  pub list_recv_first :
      (c : ListChannel T) (t : T) (ts : List T)
      → c.items ≡ t ∷ ts
      → (c' : ListChannel T) × (list_recv_at c.items c.closed ≡ some (t, c'))
        × (c'.items ≡ ts)
        × (c'.closed ≡ c.closed)
  list_recv_first c t ts h = (record { items = ts; closed = c.closed }, ground arith, refl, refl)

  pub list_send_result :
      (t : T) (c : ListChannel T) → (list_send t c).0 ≡ (if c.closed then err t else ok tt)
  list_send_result t c = ground arith

  pub list_queued-send :
      (t : T) (c : ListChannel T) → c.closed ≡ false → (list_send t c).1.items ≡ c.items ++ t ∷ []
  list_queued-send t c h = ground arith

  pub list_queued-send_failed :
      (t : T) (c : ListChannel T) → c.closed ≡ true → (list_send t c).1.items ≡ c.items
  list_queued-send_failed t c h = ground arith

  pub list_disconnected-send : (t : T) (c : ListChannel T) → (list_send t c).1.closed ≡ c.closed
  list_disconnected-send t c = ground arith

  pub list_recv_empty : (c : ListChannel T) → c.items ≡ [] → list_recv_at c.items c.closed ≡ none
  list_recv_empty c h = ground arith

abbrev pub list_flume : (T : Type 0) → Flume T
list_flume T = record {
  Channel = ListChannel T;
  queued = λ c. c.items;
  disconnected = λ c. c.closed;
  unbounded = record { items = []; closed = false };
  send = list_send;
  recv = λ c. list_recv_at c.items c.closed;
  drain = λ c. (c.items, record { items = []; closed = c.closed });
  close = λ c. record { items = c.items; closed = true };
  queued-unbounded = refl;
  disconnected-unbounded = refl;
  send_result = list_send_result;
  queued-send = list_queued-send;
  queued-send_failed = list_queued-send_failed;
  disconnected-send = list_disconnected-send;
  recv_empty = list_recv_empty;
  recv_first = list_recv_first;
  drain_items = λ c. refl;
  queued-drain = λ c. refl;
  disconnected-drain = λ c. refl;
  disconnected-close = λ c. refl;
  queued-close = λ c. refl;
}
