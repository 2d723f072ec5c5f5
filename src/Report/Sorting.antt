-- ===== src/Report/Sorting.antt =====
-- waltz-comparison/src/bin/report.rs: what `sort_by` returns.
use Prim.Native.Nat.{Ordering, lt, eq, gt}
use mathlib.Core.List.{Perm}
use mathlib.Core.List as ListLib
use waltz.Base.{
  ◌≡◌, refl, sym, ap, ◌∙◌, ◌⊎◌, inl, inr, true, false, List, [], ◌∷◌, All, Bool-cases, arith,
}
use waltz.Report.Order.{is_gt, insert_by, sort_by, backwards, Ordered}

module _ {ℓ} {A : Type ℓ} (cmp : A → A → Ordering) (v : Ordered cmp) where
  -- Not after.
  abbrev pub AtMost : A → A → Type 0
  AtMost a b = is_gt (cmp a b) ≡ false

  -- Each member is at most every later one.
  abbrev pub IsSorted : List A → Type ℓ
  IsSorted [] = Unit
  IsSorted (a ∷ rest) = All (AtMost a) rest × IsSorted rest

  AtMost-cases : (a b : A) → AtMost a b → (cmp a b ≡ lt) ⊎ (cmp a b ≡ eq)
  AtMost-cases a b h = cases (cmp a b) h refl
    where
      cases : (o : Ordering) → is_gt o ≡ false → cmp a b ≡ o → (cmp a b ≡ lt) ⊎ (cmp a b ≡ eq)
      cases lt h e = inl e
      cases eq h e = inr e
      cases gt h e = absurd (ground (arith, h))

  pub AtMost-trans : (a b c : A) → AtMost a b → AtMost b c → AtMost a c
  AtMost-trans a b c h h' = elim (AtMost-cases a b h) [
    | inr equal ↦ ap is_gt (v.same a b c equal) ∙ h'
    | inl less ↦ elim (AtMost-cases b c h') [
      | inl less' ↦ ap is_gt (v.trans a b c less less')
      | inr equal' ↦
          ap is_gt
            (v.swap c a ∙ ap backwards (sym (v.same b c a equal') ∙ v.swap a b ∙ ap backwards less))
    ]
  ]

  pub AtMost-total : (a b : A) → is_gt (cmp a b) ≡ true → AtMost b a
  AtMost-total a b h = ap is_gt (v.swap a b) ∙ cases (cmp a b) h
    where
      cases : (o : Ordering) → is_gt o ≡ true → is_gt (backwards o) ≡ false
      cases lt h = absurd (ground (arith, h))
      cases eq h = refl
      cases gt h = refl

  All-AtMost : (a b : A) (bs : List A) → AtMost a b → All (AtMost b) bs → All (AtMost a) bs
  All-AtMost a b [] h hs = tt
  All-AtMost a b (c ∷ cs) h hs = (AtMost-trans a b c h hs.0, All-AtMost a b cs h hs.1)

  insert_by-All :
      (P : A → Type 0) (a : A) (bs : List A) → P a → All P bs → All P (insert_by cmp a bs)
  unfolding insert_by
  insert_by-All P a [] h hs = (h, tt)
  insert_by-All P a (b ∷ bs) h hs = elim (Bool-cases (is_gt (cmp a b))) [
    | inl e ↦ rw e (hs.0, insert_by-All P a bs h hs.1)
    | inr e ↦ rw e (h, hs)
  ]

  insert_by-IsSorted : (a : A) (bs : List A) → IsSorted bs → IsSorted (insert_by cmp a bs)
  unfolding insert_by
  insert_by-IsSorted a [] s = (tt, tt)
  insert_by-IsSorted a (b ∷ bs) s = elim (Bool-cases (is_gt (cmp a b))) [
    | inl e ↦
        rw e (insert_by-All (AtMost b) a bs (AtMost-total a b e) s.0, insert_by-IsSorted a bs s.1)
    | inr e ↦ rw e ((e, All-AtMost a b bs e s.0), s)
  ]

  pub sort_by-IsSorted : (list : List A) → IsSorted (sort_by cmp list)
  unfolding sort_by
  sort_by-IsSorted [] = tt
  sort_by-IsSorted (a ∷ rest) = insert_by-IsSorted a (sort_by cmp rest) (sort_by-IsSorted rest)

  insert_by-Perm : (a : A) (bs : List A) → Perm (insert_by cmp a bs) (a ∷ bs)
  unfolding insert_by
  insert_by-Perm a [] = ListLib.Perm.refl (a ∷ [])
  insert_by-Perm a (b ∷ bs) = elim (Bool-cases (is_gt (cmp a b))) [
    | inl e ↦
        rw e (
          ListLib.Perm.trans (ListLib.Perm.cons b (insert_by-Perm a bs)) (ListLib.Perm.swap a b bs))
    | inr e ↦ rw e (ListLib.Perm.refl (a ∷ b ∷ bs))
  ]

  pub sort_by-Perm : (list : List A) → Perm (sort_by cmp list) list
  unfolding sort_by
  sort_by-Perm [] = ListLib.Perm.refl []
  sort_by-Perm (a ∷ rest) =
      ListLib.Perm.trans (insert_by-Perm a (sort_by cmp rest))
        (ListLib.Perm.cons a (sort_by-Perm rest))

  pub sort_by-All : (P : A → Type 0) (list : List A) → All P list → All P (sort_by cmp list)
  unfolding sort_by
  sort_by-All P [] h = tt
  sort_by-All P (a ∷ rest) h = insert_by-All P a (sort_by cmp rest) h.0 (sort_by-All P rest h.1)
