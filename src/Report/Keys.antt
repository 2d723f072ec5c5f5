-- ===== src/Report/Keys.antt =====
-- waltz-comparison/src/bin/report.rs: what the order of the measurements says of their keys.
use Prim.Native.Nat.{Ordering, compare, lt, eq, gt}
use waltz.Base.{◌≡◌, refl, sym, ap, ap₂, ◌∙◌, true, false, ◌&&◌, Option, none, some, [], ◌∷◌, arith}
use waltz.Report.Strings.{Text, is_same}
use waltz.Report.Lines.{is_same_refl, is_same-eq}
use waltz.Report.Order.{then_with, cmp_text, is_gt, backwards, Ordered}
use waltz.Report.Ordered.{
  then_with-eq, cmp_text-Ordered, cmp_text-eq, then_with-Ordered, of-Ordered,
}
use waltz.Report.Sorting.{AtMost}
use waltz.Report.Measurements.{
  Measurement, key, ParameterOrder, missing, number, text, cmp_order, order_of, parameter_order,
  cmp_measurements, is_same_parameter, is_same_key,
}

-- The order of parameters as one of texts.
abbrev order_text : ParameterOrder → Text
order_text missing = 0 ∷ []
order_text (number n) = 1 ∷ n ∷ []
order_text (text t) = 2 ∷ t

cmp_order-order_text :
    (a b : ParameterOrder) → cmp_order a b ≡ cmp_text (order_text a) (order_text b)
unfolding cmp_order cmp_text then_with
cmp_order-order_text missing missing = refl
cmp_order-order_text missing (number n) = refl
cmp_order-order_text missing (text t) = refl
cmp_order-order_text (number m) missing = refl
cmp_order-order_text (number m) (number n) = then_eq (compare m n)
  where
    then_eq : (o : Ordering) → o ≡ then_with o eq
    then_eq lt = refl
    then_eq eq = refl
    then_eq gt = refl
cmp_order-order_text (number m) (text t) = refl
cmp_order-order_text (text s) missing = refl
cmp_order-order_text (text s) (number n) = refl
cmp_order-order_text (text s) (text t) = refl

cmp_order-Ordered : Ordered cmp_order
cmp_order-Ordered = record {
  swap = λ a b.
      cmp_order-order_text b a ∙ of_texts.swap a b ∙ ap backwards (sym (cmp_order-order_text a b));
  same = λ a b c e.
      cmp_order-order_text a c
      ∙ of_texts.same a b c (sym (cmp_order-order_text a b) ∙ e)
      ∙ sym (cmp_order-order_text b c);
  trans = λ a b c e f.
      cmp_order-order_text a c
      ∙ of_texts.trans a b c (sym (cmp_order-order_text a b) ∙ e)
          (sym (cmp_order-order_text b c) ∙ f);
}
  where
    of_texts : Ordered (λ a b. cmp_text (order_text a) (order_text b))
    of_texts = of-Ordered cmp_text order_text cmp_text-Ordered

pub cmp_measurements-Ordered : (F : Type 0) → Ordered (cmp_measurements {F = F})
unfolding cmp_measurements
cmp_measurements-Ordered F =
    then_with-Ordered (λ a b. cmp_text a.group b.group) _
      (of-Ordered cmp_text (λ (m : Measurement F). m.group) cmp_text-Ordered)
      (then_with-Ordered (λ a b. cmp_order (parameter_order a) (parameter_order b)) _
        (of-Ordered cmp_order (parameter_order {F = F}) cmp_order-Ordered)
        (of-Ordered cmp_text (λ (m : Measurement F). m.framework) cmp_text-Ordered))

front_at_most :
    (g o f : Ordering) → is_gt (then_with g (then_with o f)) ≡ false → is_gt (then_with g o) ≡ false
unfolding then_with
front_at_most lt o f h = refl
front_at_most eq lt f h = refl
front_at_most eq eq f h = refl
front_at_most eq gt f h = h
front_at_most gt o f h = h

module _ {F : Type 0} where
  pub is_same_key-eq : (a b : Measurement F) → is_same_key a b ≡ true → key a ≡ key b
  unfolding is_same_key
  is_same_key-eq a b e =
      let groups : is_same a.group b.group ≡ true = ground (arith, e) in
      let parameters : is_same_parameter a.parameter b.parameter ≡ true = ground (arith, e) in
      ap₂ (λ g p. (g, p)) (is_same-eq a.group b.group groups)
        (parameter a.parameter b.parameter parameters)
    where
      parameter : (s t : Option Text) → is_same_parameter s t ≡ true → s ≡ t
      parameter none none h = refl
      parameter none (some t) h = absurd (ground (arith, h))
      parameter (some s) none h = absurd (ground (arith, h))
      parameter (some s) (some t) h = ap some (is_same-eq s t h)

  pub is_same_key_refl : (a b : Measurement F) → key a ≡ key b → is_same_key a b ≡ true
  unfolding is_same_key
  is_same_key_refl a b e =
      let groups = ap (is_same a.group) (ap (λ k. k.0) (sym e)) ∙ is_same_refl a.group in
      let parameters =
        ap (is_same_parameter a.parameter) (ap (λ k. k.1) (sym e)) ∙ parameter a.parameter in
      ap₂ (λ x y. x && y) groups parameters
    where
      parameter : (s : Option Text) → is_same_parameter s s ≡ true
      parameter none = refl
      parameter (some s) = is_same_refl s

  -- The order without the framework.
  abbrev cmp_key : Measurement F → Measurement F → Ordering
  cmp_key a b =
      then_with (cmp_text a.group b.group) (cmp_order (parameter_order a) (parameter_order b))

  cmp_key-Ordered : Ordered cmp_key
  cmp_key-Ordered =
      then_with-Ordered (λ a b. cmp_text a.group b.group) _
        (of-Ordered cmp_text (λ (m : Measurement F). m.group) cmp_text-Ordered)
        (of-Ordered cmp_order (parameter_order {F = F}) cmp_order-Ordered)

  AtMost-cmp_key :
      (a b : Measurement F)
      → AtMost cmp_measurements (cmp_measurements-Ordered F) a b
      → AtMost cmp_key cmp_key-Ordered a b
  unfolding cmp_measurements
  AtMost-cmp_key a b h =
      front_at_most (cmp_text a.group b.group) (cmp_order (parameter_order a) (parameter_order b))
        (cmp_text a.framework b.framework) h

  cmp_key_ext : (a b c : Measurement F) → key a ≡ key c → cmp_key b c ≡ cmp_key b a
  unfolding parameter_order
  cmp_key_ext a b c e =
      ap
        (λ (k : Text × Option Text).
          then_with (cmp_text b.group k.0) (cmp_order (order_of b.parameter) (order_of k.1)))
        (sym e)

  -- Neither after the other.
  cmp_key-eq :
      (a b : Measurement F)
      → AtMost cmp_key cmp_key-Ordered a b
      → AtMost cmp_key cmp_key-Ordered b a
      → cmp_key a b ≡ eq
  cmp_key-eq a b h h' = cases (cmp_key a b) refl
    where
      cases : (o : Ordering) → cmp_key a b ≡ o → cmp_key a b ≡ eq
      cases lt e =
          let after : cmp_key b a ≡ gt = cmp_key-Ordered.swap a b ∙ ap backwards e in
          absurd (ground (arith, h', ap is_gt after))
      cases eq e = e
      cases gt e = absurd (ground (arith, h, ap is_gt e))

  module _ (C : Option Text → Type 0)
      (one : (s t : Option Text)
        → C s
        → C t
        → cmp_order (order_of s) (order_of t) ≡ eq
        → s ≡ t) where
    pub between :
        (a b c : Measurement F)
        → C a.parameter
        → C b.parameter
        → AtMost cmp_measurements (cmp_measurements-Ordered F) a b
        → AtMost cmp_measurements (cmp_measurements-Ordered F) b c
        → key a ≡ key c
        → key a ≡ key b
    unfolding parameter_order
    between a b c in_a in_b below above same =
        let equal =
          cmp_key-eq a b (AtMost-cmp_key a b below)
            (ap is_gt (sym (cmp_key_ext a b c same)) ∙ AtMost-cmp_key b c above) in
        let (groups, orders) =
          then_with-eq (cmp_text a.group b.group)
            (cmp_order (parameter_order a) (parameter_order b)) equal in
        ap₂ (λ g p. (g, p)) (cmp_text-eq a.group b.group groups)
          (one a.parameter b.parameter in_a in_b orders)
