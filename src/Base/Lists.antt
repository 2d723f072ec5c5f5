-- ===== src/Base/Lists.antt =====
-- Lists measured by native numbers, and a predicate of all members.
use Prim.Native.Nat.{ℕ, zero, suc, ◌+◌}
use mathlib.Core.Path.{◌≡◌, ap, ◌∙◌}
use mathlib.Core.List.{List, [], ◌∷◌, ◌++◌}
use native.Mathlib.Omega.{arith}
use Prim.Native.Nat.add

module _ {ℓ} {A : Type ℓ} where
  abbrev pub length : List A → ℕ
  length [] = 0
  length (x ∷ xs) = suc (length xs)

  abbrev pub replicate : ℕ → A → List A
  replicate zero a = []
  replicate (suc n) a = a ∷ replicate n a

  pub length-append : (xs ys : List A) → length (xs ++ ys) ≡ length xs + length ys
  length-append [] ys = omega arith
  length-append (x ∷ xs) ys = omega (arith, length-append xs ys)

  pub replicate-add : (m n : ℕ) (a : A) → replicate (m + n) a ≡ replicate m a ++ replicate n a
  replicate-add zero n a = ap (λ k. replicate k a) (add.zero n)
  replicate-add (suc m) n a =
      ap (λ k. replicate k a) (add.suc m n) ∙ ap (λ l. a ∷ l) (replicate-add m n a)

  abbrev pub All {κ} : (A → Type κ) → List A → Type κ
  All P [] = Unit
  All P (x ∷ xs) = P x × All P xs

  pub All-append {κ} : (P : A → Type κ) (xs ys : List A) → All P xs → All P ys → All P (xs ++ ys)
  All-append P [] ys hx hy = hy
  All-append P (x ∷ xs) ys hx hy = (hx.0, All-append P xs ys hx.1 hy)

  -- A member in the middle, and the rest.
  pub All-split {κ} :
      (P : A → Type κ) (xs ys : List A) (a : A) → All P (xs ++ a ∷ ys) → All P xs × P a × All P ys
  All-split P [] ys a h = (tt, h.0, h.1)
  All-split P (x ∷ xs) ys a h =
      let (front, mid, back) = All-split P xs ys a h.1 in ((h.0, front), mid, back)

  pub All-join {κ} :
      (P : A → Type κ) (xs ys : List A) (a : A) → All P xs → P a → All P ys → All P (xs ++ a ∷ ys)
  All-join P [] ys a front mid back = (mid, back)
  All-join P (x ∷ xs) ys a front mid back = (front.0, All-join P xs ys a front.1 mid back)
