-- ===== src/Mailbox/Interleaving/Count.antt =====
-- What the count of a bounded mailbox has to account for while many threads use it.
use waltz.Base.{
  ℕ, ◌+◌, ◌-◌, ◌≤◌, ◌<◌, ◌≡◌, refl, sym, ap, ◌∙◌, Bool, true, false, some, List, [], ◌∷◌, ◌++◌, All,
  All-split, All-join, subst, of_some, arith,
}
use waltz.Extern.Flume.{Flume}
use waltz.Quota.{Counts, usize_mod, Reservation, drop}
use waltz.Actor.{Incoming, message, terminated, messages}
use waltz.Mailbox.Interleaving.{
  Sending, idle, reserved, failed, Receiving, polling, received, drained, closed, State, the_quota,
}

module _ {M : Type 0} where
  abbrev pub is_holding : Sending M → ℕ
  is_holding idle = 0
  is_holding (reserved item r) = 1
  is_holding (failed r) = 1

  -- How many threads hold a reservation that is not handed over.
  abbrev pub holding : List (Sending M) → ℕ
  holding [] = 0
  holding (p ∷ ps) = is_holding p + holding ps

  pub holding_at :
      (xs ys : List (Sending M)) (p : Sending M)
      → holding (xs ++ p ∷ ys) ≡ holding xs + is_holding p + holding ys
  holding_at [] ys p = omega arith
  holding_at (x ∷ xs) ys p = omega (arith, holding_at xs ys p)

  -- Whether the receiver still owes a release.
  abbrev pub owing : Receiving M → ℕ
  owing polling = 0
  owing (received (message m)) = 1
  owing (received (terminated id)) = 0
  owing drained = 0
  owing closed = 0

  abbrev pub is_live : Receiving M → Bool
  is_live polling = true
  is_live (received incoming) = true
  is_live drained = false
  is_live closed = false

pub drop_own :
    (capacity cell : ℕ) (r : Reservation) (counts : Counts)
    → r ≡ record { held = some (the_quota capacity cell) }
    → 0 < counts cell
    → counts cell < usize_mod
    → drop r counts cell ≡ counts cell - 1
unfolding drop
drop_own capacity cell r counts own pos fits = rw own (ground arith)

module _ {M : Type 0} ⦃flume : Flume (Incoming M)⦄ (loc capacity cell : ℕ) where
  -- A reservation that a thread holds is one of this quota, for a message.
  abbrev pub IsOwn : Sending M → Type 0
  IsOwn idle = Unit {0}
  IsOwn (reserved item r) =
      (r ≡ record { held = some (the_quota capacity cell) }) × (messages (item ∷ []) ≡ 1)
  IsOwn (failed r) = r ≡ record { held = some (the_quota capacity cell) }

  -- What the count has to account for.
  abbrev pub accounted : State M → ℕ
  accounted s =
      holding s.senders + messages (flume.queued (s.wires.channels loc)) + owing s.receiver

  pub record Inv (s : State M) : Type 0 where
    pub own : All IsOwn s.senders
    pub fits : s.wires.counts cell ≤ capacity
    pub covered : accounted s ≤ s.wires.counts cell
    pub exact : is_live s.receiver ≡ true → s.wires.counts cell ≤ accounted s

  -- A step that replaces the thread between `xs` and `ys`.
  module _ (xs ys : List (Sending M)) (p q : Sending M) (s : State M)
      (at : s.senders ≡ xs ++ p ∷ ys) where
    pub IsOwn-parts : All IsOwn s.senders → All IsOwn xs × IsOwn p × All IsOwn ys
    IsOwn-parts own = All-split IsOwn xs ys p (subst (All IsOwn) at own)

    pub IsOwn-replaced : All IsOwn s.senders → IsOwn q → All IsOwn (xs ++ q ∷ ys)
    IsOwn-replaced own mine =
        let (front, mid, back) = IsOwn-parts own in All-join IsOwn xs ys q front mine back

    pub holding_replaced : holding (xs ++ q ∷ ys) + is_holding p ≡ holding s.senders + is_holding q
    holding_replaced = rw at (omega (arith, holding_at xs ys p, holding_at xs ys q))

module _ {M : Type 0} ⦃flume : Flume (Incoming M)⦄ where
  -- What is received was the oldest item.
  pub recv_queued :
      (ch : flume.Channel) (items : List (Incoming M)) (incoming : Incoming M) (c : flume.Channel)
      → flume.queued ch ≡ items
      → flume.recv ch ≡ some (incoming, c)
      → flume.queued ch ≡ incoming ∷ flume.queued c
  recv_queued ch [] incoming c e got = absurd (ground (arith, flume.recv_empty ch e))
  recv_queued ch (t ∷ ts) incoming c e got =
      let (c', first, rest, same) = flume.recv_first ch t ts e in
      let pair : ◌≡◌ {A = Incoming M × flume.Channel} (t, c') (incoming, c) =
        of_some (sym first ∙ got) in
      e
      ∙ ap (◌∷◌ t) (sym rest)
      ∙ ap (λ (p : Incoming M × flume.Channel). p.0 ∷ flume.queued p.1) pair

  pub recv_messages :
      (ch : flume.Channel) (incoming : Incoming M) (c : flume.Channel)
      → flume.recv ch ≡ some (incoming, c)
      → messages (flume.queued ch) ≡ messages (flume.queued c) + owing (received incoming)
  recv_messages ch (message m) c got =
      ap messages (recv_queued ch (flume.queued ch) (message m) c refl got) ∙ omega arith
  recv_messages ch (terminated id) c got =
      ap messages (recv_queued ch (flume.queued ch) (terminated id) c refl got) ∙ omega arith
