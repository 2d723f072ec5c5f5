-- ===== src/Report/Order.antt =====
-- waltz-comparison/src/bin/report.rs: what the report uses of `Ord`: comparisons, their lexicographic
-- composition, sorting and chunks.
use Prim.Native.Nat.{Ordering, compare, lt, eq, gt}
use waltz.Base.{◌≡◌, Bool, true, false, List, [], ◌∷◌, if◌then◌else◌, arith}
use waltz.Report.Strings.{Text}

-- `Ordering::then_with`.
unfoldable pub then_with : Ordering → Ordering → Ordering
then_with lt o = lt
then_with eq o = o
then_with gt o = gt

unfoldable pub cmp_text : Text → Text → Ordering
unfolding then_with
cmp_text [] [] = eq
cmp_text [] (d ∷ t) = lt
cmp_text (c ∷ s) [] = gt
cmp_text (c ∷ s) (d ∷ t) = then_with (compare c d) (cmp_text s t)

abbrev pub is_gt : Ordering → Bool
is_gt lt = false
is_gt eq = false
is_gt gt = true

-- `sort_by`, which is stable.
unfoldable pub insert_by {ℓ} : {A : Type ℓ} → (A → A → Ordering) → A → List A → List A
insert_by cmp a [] = a ∷ []
insert_by cmp a (b ∷ bs) =
    let rest = insert_by cmp a bs in if is_gt (cmp a b) then b ∷ rest else a ∷ b ∷ bs

unfoldable pub sort_by {ℓ} : {A : Type ℓ} → (A → A → Ordering) → List A → List A
unfolding insert_by
sort_by cmp [] = []
sort_by cmp (a ∷ rest) = insert_by cmp a (sort_by cmp rest)

-- A further member in front of chunks.
unfoldable pub attach {ℓ} : {A : Type ℓ} → (A → A → Bool) → A → List (List A) → List (List A)
attach same a [] = (a ∷ []) ∷ []
attach same a ([] ∷ chunks) = (a ∷ []) ∷ chunks
attach same a ((b ∷ bs) ∷ chunks) =
    if same a b then (a ∷ b ∷ bs) ∷ chunks else (a ∷ []) ∷ (b ∷ bs) ∷ chunks

-- `chunk_by`: a chunk ends where two neighbours are not the same.
unfoldable pub chunk_by {ℓ} : {A : Type ℓ} → (A → A → Bool) → List A → List (List A)
unfolding attach
chunk_by same [] = []
chunk_by same (a ∷ rest) = attach same a (chunk_by same rest)

abbrev pub backwards : Ordering → Ordering
backwards lt = gt
backwards eq = eq
backwards gt = lt

-- The laws of a total order up to what compares as equal.
pub record Ordered {ℓ} {A : Type ℓ} (cmp : A → A → Ordering) : Type ℓ where
  pub swap : (a b : A) → cmp b a ≡ backwards (cmp a b)
  pub same : (a b c : A) → cmp a b ≡ eq → cmp a c ≡ cmp b c
  pub trans : (a b c : A) → cmp a b ≡ lt → cmp b c ≡ lt → cmp a c ≡ lt

pub compare-Ordered : Ordered compare
compare-Ordered = record {
  swap = λ a b. ground arith;
  same = λ a b c e. ground arith;
  trans = λ a b c e f. ground arith;
}
