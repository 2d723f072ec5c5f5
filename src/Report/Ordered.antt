-- ===== src/Report/Ordered.antt =====
-- waltz-comparison/src/bin/report.rs: the comparisons are total orders, and `sort_by` sorts by them.
use Prim.Native.Nat.{Ordering, compare, lt, eq, gt}
use waltz.Base.{◌≡◌, refl, sym, ap, ap₂, ◌∙◌, ◌⊎◌, inl, inr, [], ◌∷◌, arith}
use waltz.Report.Strings.{Text}
use waltz.Report.Order.{then_with, cmp_text, backwards, Ordered, compare-Ordered}

then_with-backwards :
    (o p : Ordering) → then_with (backwards o) (backwards p) ≡ backwards (then_with o p)
unfolding then_with
then_with-backwards lt p = refl
then_with-backwards eq p = refl
then_with-backwards gt p = refl

pub then_with-eq : (o p : Ordering) → then_with o p ≡ eq → (o ≡ eq) × (p ≡ eq)
unfolding then_with
then_with-eq lt p e = absurd (ground (arith, e))
then_with-eq eq p e = (refl, e)
then_with-eq gt p e = absurd (ground (arith, e))

then_with-lt : (o p : Ordering) → then_with o p ≡ lt → (o ≡ lt) ⊎ ((o ≡ eq) × (p ≡ lt))
unfolding then_with
then_with-lt lt p e = inl refl
then_with-lt eq p e = inr (refl, e)
then_with-lt gt p e = absurd (ground (arith, e))

-- One step of a lexicographic comparison, by what the two parts do at three members.
module _ {ℓ κ} {A : Type ℓ} {B : Type κ} (f : A → A → Ordering) (g : B → B → Ordering)
    (v : Ordered f) where
  lex_swap :
      (a a' : A) (b b' : B)
      → g b' b ≡ backwards (g b b')
      → then_with (f a' a) (g b' b) ≡ backwards (then_with (f a a') (g b b'))
  lex_swap a a' b b' e = ap₂ then_with (v.swap a a') e ∙ then_with-backwards (f a a') (g b b')

  lex_same :
      (a a' a'' : A) (b b' b'' : B)
      → (g b b' ≡ eq → g b b'' ≡ g b' b'')
      → then_with (f a a') (g b b') ≡ eq
      → then_with (f a a'') (g b b'') ≡ then_with (f a' a'') (g b' b'')
  lex_same a a' a'' b b' b'' same e =
      let (first, second) = then_with-eq (f a a') (g b b') e in
      ap₂ then_with (v.same a a' a'' first) (same second)

  lex_trans :
      (a a' a'' : A) (b b' b'' : B)
      → (g b b' ≡ lt → g b' b'' ≡ lt → g b b'' ≡ lt)
      → then_with (f a a') (g b b') ≡ lt
      → then_with (f a' a'') (g b' b'') ≡ lt
      → then_with (f a a'') (g b b'') ≡ lt
  unfolding then_with
  lex_trans a a' a'' b b' b'' trans e e' = elim (then_with-lt (f a a') (g b b') e) [
    | inl less ↦ elim (then_with-lt (f a' a'') (g b' b'') e') [
      | inl less' ↦ rw (v.trans a a' a'' less less') refl
      | inr (equal', rest') ↦ rw (below a a' a'' less equal') refl
    ]
    | inr (equal, rest) ↦ elim (then_with-lt (f a' a'') (g b' b'') e') [
      | inl less' ↦ rw (v.same a a' a'' equal ∙ less') refl
      | inr (equal', rest') ↦ rw (v.same a a' a'' equal ∙ equal') (trans rest rest')
    ]
  ]
    where
      -- What lies below a member lies below its equals.
      below : (a a' a'' : A) → f a a' ≡ lt → f a' a'' ≡ eq → f a a'' ≡ lt
      below a a' a'' less equal =
          v.swap a'' a
          ∙ ap backwards (sym (v.same a' a'' a equal) ∙ v.swap a a' ∙ ap backwards less)

cmp_text-swap : (s t : Text) → cmp_text t s ≡ backwards (cmp_text s t)
unfolding cmp_text
cmp_text-swap [] [] = refl
cmp_text-swap [] (d ∷ t) = refl
cmp_text-swap (c ∷ s) [] = refl
cmp_text-swap (c ∷ s) (d ∷ t) =
    lex_swap compare cmp_text compare-Ordered c d s t (cmp_text-swap s t)

cmp_text-same : (s t u : Text) → cmp_text s t ≡ eq → cmp_text s u ≡ cmp_text t u
unfolding cmp_text
cmp_text-same [] [] u e = refl
cmp_text-same [] (d ∷ t) u e = absurd (ground (arith, e))
cmp_text-same (c ∷ s) [] u e = absurd (ground (arith, e))
cmp_text-same (c ∷ s) (d ∷ t) [] e = refl
cmp_text-same (c ∷ s) (d ∷ t) (b ∷ u) e =
    lex_same compare cmp_text compare-Ordered c d b s t u (cmp_text-same s t u) e

cmp_text_trans : (s t u : Text) → cmp_text s t ≡ lt → cmp_text t u ≡ lt → cmp_text s u ≡ lt
unfolding cmp_text
cmp_text_trans [] [] u e f = f
cmp_text_trans [] (d ∷ t) [] e f = absurd (ground (arith, f))
cmp_text_trans [] (d ∷ t) (b ∷ u) e f = refl
cmp_text_trans (c ∷ s) [] u e f = absurd (ground (arith, e))
cmp_text_trans (c ∷ s) (d ∷ t) [] e f = absurd (ground (arith, f))
cmp_text_trans (c ∷ s) (d ∷ t) (b ∷ u) e f =
    lex_trans compare cmp_text compare-Ordered c d b s t u (cmp_text_trans s t u) e f

pub cmp_text-Ordered : Ordered cmp_text
cmp_text-Ordered = record { swap = cmp_text-swap; same = cmp_text-same; trans = cmp_text_trans }

-- Texts that compare as equal are the same.
pub cmp_text-eq : (s t : Text) → cmp_text s t ≡ eq → s ≡ t
unfolding cmp_text
cmp_text-eq [] [] e = refl
cmp_text-eq [] (d ∷ t) e = absurd (ground (arith, e))
cmp_text-eq (c ∷ s) [] e = absurd (ground (arith, e))
cmp_text-eq (c ∷ s) (d ∷ t) e =
    let (head, tail) = then_with-eq (compare c d) (cmp_text s t) e in
    let same : c ≡ d = ground (arith, head) in ap₂ (λ k u. k ∷ u) same (cmp_text-eq s t tail)

-- The comparison by one part, and by a second where that is equal.
pub then_with-Ordered {ℓ} :
    {A : Type ℓ} (f g : A → A → Ordering)
    → Ordered f
    → Ordered g
    → Ordered (λ a b. then_with (f a b) (g a b))
then_with-Ordered f g v w = record {
  swap = λ a b. lex_swap f g v a b a b (w.swap a b);
  same = λ a b c e. lex_same f g v a b c a b c (w.same a b c) e;
  trans = λ a b c e e'. lex_trans f g v a b c a b c (w.trans a b c) e e';
}

pub of-Ordered {ℓ κ} :
    {A : Type ℓ} {B : Type κ} (cmp : B → B → Ordering) (of : A → B)
    → Ordered cmp
    → Ordered (λ a b. cmp (of a) (of b))
of-Ordered cmp of v = record {
  swap = λ a b. v.swap (of a) (of b);
  same = λ a b c. v.same (of a) (of b) (of c);
  trans = λ a b c. v.trans (of a) (of b) (of c);
}
