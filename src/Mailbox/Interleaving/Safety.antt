-- ===== src/Mailbox/Interleaving/Safety.antt =====
-- waltz/src/quota.rs and waltz/src/mailbox.rs: what holds of a bounded mailbox at every moment,
-- however its senders and its receiver are interleaved.
use waltz.Base.{
  ℕ, zero, suc, ◌+◌, ◌≤◌, ◌<◌, ◌≡◌, refl, sym, ap, ◌∙◌, subst, ◌⊎◌, inl, inr, true,
  false_is_not_true, List, [], ◌∷◌, ◌++◌, All, replicate, err, lt→ltb, arith,
}
use waltz.Extern.Flume.{Flume}
use waltz.Quota.{usize_mod, Full, Reservation, reserve, asserts}
use waltz.Quota.Reserving.{reserve_lem}
use waltz.Actor.{Incoming, message, messages}
use waltz.Mailbox.Interleaving.{
  Sending, idle, failed, polling, received, State, the_quota, Step, reserves, is_refused, sends,
  fails, releases, signals, receives, unreserves, drains, closes, Reach, here, next,
}
use waltz.Mailbox.Interleaving.Count.{holding, holding_at, owing, is_live, IsOwn, Inv}
use waltz.Mailbox.Interleaving.Senders.{
  reserves-Inv, sends-Inv, fails-Inv, releases-Inv, signals-Inv,
}
use waltz.Mailbox.Interleaving.Receiver.{receives-Inv, unreserves-Inv, drains-Inv, closes-Inv}

holding-replicate : (M : Type 0) (n : ℕ) → holding (replicate {A = Sending M} n idle) ≡ 0
holding-replicate M zero = refl
holding-replicate M (suc n) = omega (arith, holding-replicate M n)

IsOwn-replicate :
    (M : Type 0) ⦃flume : Flume (Incoming M)⦄ (loc capacity cell n : ℕ)
    → All (IsOwn {M = M} loc capacity cell) (replicate n idle)
IsOwn-replicate M loc capacity cell zero = tt
IsOwn-replicate M loc capacity cell (suc n) = (tt, IsOwn-replicate M loc capacity cell n)

is_live-eq :
    {M : Type 0} ⦃flume : Flume (Incoming M)⦄ (s t : State M)
    → t.receiver ≡ s.receiver
    → is_live t.receiver ≡ true
    → is_live s.receiver ≡ true
is_live-eq s t e live = sym (ap is_live e) ∙ live

module _ {M : Type 0} ⦃flume : Flume (Incoming M)⦄ (loc capacity cell : ℕ)
    (small : capacity < usize_mod) where
  Step-Inv :
      (s t : State M)
      → Step loc capacity cell s t
      → Inv loc capacity cell s
      → Inv loc capacity cell t
  Step-Inv s t (reserves xs ys m r at granted e) v =
      rw e (reserves-Inv loc capacity cell small s xs ys m r at granted v)
  Step-Inv s t (is_refused stale refused e) v = subst (Inv loc capacity cell) (sym e) v
  Step-Inv s t (sends xs ys item r at sent e) v =
      rw e (sends-Inv loc capacity cell small s xs ys item r at sent v)
  Step-Inv s t (fails xs ys item r at lost e) v =
      rw e (fails-Inv loc capacity cell small s xs ys item r at lost v)
  Step-Inv s t (releases xs ys r at e) v =
      rw e (releases-Inv loc capacity cell small s xs ys r at v)
  Step-Inv s t (signals id e) v = rw e (signals-Inv loc capacity cell small s id v)
  Step-Inv s t (receives incoming c at got e) v =
      rw e (receives-Inv loc capacity cell small s incoming c at got v)
  Step-Inv s t (unreserves incoming at e) v =
      rw e (unreserves-Inv loc capacity cell small s incoming at v)
  Step-Inv s t (drains at e) v = rw e (drains-Inv loc capacity cell small s at v)
  Step-Inv s t (closes at e) v = rw e (closes-Inv loc capacity cell small s at v)

  -- A new mailbox, as `make_mailbox` leaves it, with `n` threads that hold nothing.
  pub record IsNew (n : ℕ) (s : State M) : Type 0 where
    pub unused : s.wires.counts cell ≡ 0
    pub nothing_queued : flume.queued (s.wires.channels loc) ≡ []
    pub all_idle : s.senders ≡ replicate n idle
    pub is_polling : s.receiver ≡ polling

  pub Reach-Inv :
      (n : ℕ) (s t : State M) → IsNew n s → Reach loc capacity cell s t → Inv loc capacity cell t
  Reach-Inv n s t new here = record {
    own = rw new.all_idle (IsOwn-replicate M loc capacity cell n);
    fits = omega (arith, new.unused);
    covered = omega (
      arith,
      ap holding new.all_idle,
      holding-replicate M n,
      ap messages new.nothing_queued,
      ap owing new.is_polling,
    );
    exact = λ live. omega (arith, new.unused);
  }
  Reach-Inv n s t new (next r st) = Step-Inv _ t st (Reach-Inv n s _ new r)

  -- In every reachable state the messages in the mailbox, the reservations that threads hold and the
  -- release that the receiver owes are together at most the capacity.
  pub never_overfull :
      (n : ℕ) (s t : State M)
      → IsNew n s
      → Reach loc capacity cell s t
      → messages (flume.queued (t.wires.channels loc)) + holding t.senders + owing t.receiver
        ≤ capacity
  never_overfull n s t new r = let v = Reach-Inv n s t new r in omega (arith, v.covered, v.fits)

  -- `fetch_sub` never finds a count of 0: in every reachable state in which the receiver is about to
  -- release a message that it took, or a thread is about to drop its reservation after a failed
  -- send, what `unreserve` asserts holds.
  pub never_underflows :
      (n : ℕ) (s t : State M)
      → IsNew n s
      → Reach loc capacity cell s t
      → ((m : M) × (t.receiver ≡ received (message m)))
        ⊎ ((xs : List (Sending M)) × (ys : List (Sending M)) × (r : Reservation) × (t.senders
              ≡ xs ++ failed r ∷ ys))
      → asserts (the_quota capacity cell) t.wires.counts ≡ true
  never_underflows n s t new r (inl (m, at)) =
      let v = Reach-Inv n s t new r in lt→ltb 0 _ (omega (arith, v.covered, ap owing at))
  never_underflows n s t new r (inr (xs, ys, res, at)) =
      let v = Reach-Inv n s t new r in
      lt→ltb 0 _ (omega (arith, v.covered, ap holding at, holding_at xs ys (failed res)))

  -- A receiver that has not begun to terminate had not before.
  Step-is_live :
      (s t : State M)
      → Step loc capacity cell s t
      → is_live t.receiver ≡ true
      → is_live s.receiver ≡ true
  Step-is_live s t (reserves xs ys m r at granted e) live =
      is_live-eq s t (ap (λ u. u.receiver) e) live
  Step-is_live s t (is_refused stale refused e) live = is_live-eq s t (ap (λ u. u.receiver) e) live
  Step-is_live s t (sends xs ys item r at sent e) live =
      is_live-eq s t (ap (λ u. u.receiver) e) live
  Step-is_live s t (fails xs ys item r at lost e) live =
      is_live-eq s t (ap (λ u. u.receiver) e) live
  Step-is_live s t (releases xs ys r at e) live = is_live-eq s t (ap (λ u. u.receiver) e) live
  Step-is_live s t (signals id e) live = is_live-eq s t (ap (λ u. u.receiver) e) live
  Step-is_live s t (receives incoming c at got e) live = ap is_live at
  Step-is_live s t (unreserves incoming at e) live = ap is_live at
  Step-is_live s t (drains at e) live = ap is_live at
  Step-is_live s t (closes at e) live =
      absurd (false_is_not_true (sym (ap (λ u. is_live u.receiver) e) ∙ live))

  Reach-is_live :
      (s t : State M)
      → Reach loc capacity cell s t
      → is_live t.receiver ≡ true
      → is_live s.receiver ≡ true
  Reach-is_live s t here live = live
  Reach-is_live s t (next {t = u} r st) live = Reach-is_live s u r (Step-is_live u t st live)

  -- A reservation is refused for a reason: if a sender is refused, while the receiver has not begun to
  -- terminate, on a count that it read in the same or, as its load may be stale, in an earlier state,
  -- then in the state of that count the messages, the held reservations and the owed release filled
  -- the capacity exactly.
  pub refused_was_full :
      (n : ℕ) (s read t : State M)
      → IsNew n s
      → Reach loc capacity cell s read
      → Reach loc capacity cell read t
      → is_live t.receiver ≡ true
      → (reserve (the_quota capacity cell) read.wires.counts).0 ≡ err Full.full
      → messages (flume.queued (read.wires.channels loc))
          + holding read.senders
          + owing read.receiver
        ≡ capacity
  refused_was_full n s read t new before behind live refused =
      let v = Reach-Inv n s read new before in
      let no_room : capacity ≤ read.wires.counts cell =
        ground (arith, reserve_lem (the_quota capacity cell) read.wires.counts cell small) in
      omega (arith, v.covered, v.exact (Reach-is_live read t behind live), v.fits)
