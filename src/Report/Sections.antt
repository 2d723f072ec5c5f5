-- ===== src/Report/Sections.antt =====
-- waltz-comparison/src/bin/report.rs: each group and parameter has one section.
use mathlib.Core.List.{Perm}
use waltz.Base.{
  ◌≡◌, ◌≢◌, refl, sym, ap, ◌∙◌, inl, inr, false, Option, List, [], ◌∷◌, ◌++◌, All, Bool-cases,
  subst, arith,
}
use waltz.Report.Strings.{Text}
use waltz.Report.Order.{sort_by, attach, chunk_by}
use waltz.Report.Sorting.{AtMost, IsSorted, sort_by-IsSorted, sort_by-Perm, sort_by-All}
use waltz.Report.Measurements.{
  Measurement, key, cmp_order, order_of, cmp_measurements, is_same_key, sort_measurements, sections,
}
use waltz.Report.Keys.{is_same_key-eq, is_same_key_refl, cmp_measurements-Ordered, between}
use Prim.Native.Nat.{eq}

-- The first member of each chunk.
abbrev pub heads : {A : Type 0} → List (List A) → List A
heads [] = []
heads ([] ∷ chunks) = heads chunks
heads ((a ∷ rest) ∷ chunks) = a ∷ heads chunks

abbrev pub joined : {A : Type 0} → List (List A) → List A
joined [] = []
joined (chunk ∷ chunks) = chunk ++ joined chunks

module _ {F : Type 0} where
  -- No two members have the same key.
  abbrev pub HaveOwnKeys : List (Measurement F) → Type 0
  HaveOwnKeys [] = Unit {0}
  HaveOwnKeys (a ∷ rest) = All (λ b. key a ≢ key b) rest × HaveOwnKeys rest

  -- A first member, with whose key all others agree.
  abbrev pub IsSection : List (Measurement F) → Type 0
  IsSection [] = ⊥
  IsSection (a ∷ rest) = All (λ b. key a ≡ key b) rest

  attach-joined :
      (a : Measurement F) (chunks : List (List (Measurement F)))
      → joined (attach is_same_key a chunks) ≡ a ∷ joined chunks
  unfolding attach
  attach-joined a [] = refl
  attach-joined a ([] ∷ chunks) = refl
  attach-joined a ((b ∷ bs) ∷ chunks) = elim (Bool-cases (is_same_key a b)) [
    | inl e ↦ rw e refl
    | inr e ↦ rw e refl
  ]

  joined-chunk_by : (ms : List (Measurement F)) → joined (chunk_by is_same_key ms) ≡ ms
  unfolding chunk_by
  joined-chunk_by [] = refl
  joined-chunk_by (a ∷ rest) =
      attach-joined a (chunk_by is_same_key rest) ∙ ap (λ l. a ∷ l) (joined-chunk_by rest)

  same_keys :
      (a b : Measurement F) (cs : List (Measurement F))
      → key a ≡ key b
      → All (λ c. key b ≡ key c) cs
      → All (λ c. key a ≡ key c) cs
  same_keys a b [] e h = tt
  same_keys a b (c ∷ cs) e h = (e ∙ h.0, same_keys a b cs e h.1)

  attach-IsSection :
      (a : Measurement F) (chunks : List (List (Measurement F)))
      → All IsSection chunks
      → All IsSection (attach is_same_key a chunks)
  unfolding attach
  attach-IsSection a [] h = (tt, tt)
  attach-IsSection a ([] ∷ chunks) h = elim h.0 [ ]
  attach-IsSection a ((b ∷ bs) ∷ chunks) h = elim (Bool-cases (is_same_key a b)) [
    | inl e ↦ let same = is_same_key-eq a b e in rw e ((same, same_keys a b bs same h.0), h.1)
    | inr e ↦ rw e (tt, h)
  ]

  chunk_by-IsSection : (ms : List (Measurement F)) → All IsSection (chunk_by is_same_key ms)
  unfolding chunk_by
  chunk_by-IsSection [] = tt
  chunk_by-IsSection (a ∷ rest) =
      attach-IsSection a (chunk_by is_same_key rest) (chunk_by-IsSection rest)

  heads-attach :
      (P : Measurement F → Type 0) (a : Measurement F) (chunks : List (List (Measurement F)))
      → P a
      → All P (heads chunks)
      → All P (heads (attach is_same_key a chunks))
  unfolding attach
  heads-attach P a [] p h = (p, tt)
  heads-attach P a ([] ∷ chunks) p h = (p, h)
  heads-attach P a ((b ∷ bs) ∷ chunks) p h = elim (Bool-cases (is_same_key a b)) [
    | inl e ↦ rw e (p, h.1)
    | inr e ↦ rw e (p, h)
  ]

  heads-All :
      (P : Measurement F → Type 0) (ms : List (Measurement F))
      → All P ms
      → All P (heads (chunk_by is_same_key ms))
  unfolding chunk_by
  heads-All P [] h = tt
  heads-All P (a ∷ rest) h = heads-attach P a (chunk_by is_same_key rest) h.0 (heads-All P rest h.1)

  other_keys :
      (a b : Measurement F) (cs : List (Measurement F))
      → key a ≡ key b
      → All (λ c. key b ≢ key c) cs
      → All (λ c. key a ≢ key c) cs
  other_keys a b [] e h = tt
  other_keys a b (c ∷ cs) e h = ((λ e'. h.0 (sym e ∙ e')), other_keys a b cs e h.1)

  attach-HaveOwnKeys :
      (a : Measurement F) (chunks : List (List (Measurement F)))
      → ((b : Measurement F) (bs : List (Measurement F)) (others : List (List (Measurement F)))
          → chunks ≡ (b ∷ bs) ∷ others
          → is_same_key a b ≡ false
          → All (λ c. key a ≢ key c) (heads chunks))
      → All IsSection chunks
      → HaveOwnKeys (heads chunks)
      → HaveOwnKeys (heads (attach is_same_key a chunks))
  unfolding attach
  attach-HaveOwnKeys a [] h sections v = (tt, tt)
  attach-HaveOwnKeys a ([] ∷ chunks) h sections v = elim sections.0 [ ]
  attach-HaveOwnKeys a ((b ∷ bs) ∷ chunks) h sections v = elim (Bool-cases (is_same_key a b)) [
    | inl e ↦ rw e (other_keys a b (heads chunks) (is_same_key-eq a b e) v.0, v.1)
    | inr e ↦ rw e (h b bs chunks refl e, v)
  ]

  module _ (C : Option Text → Type 0)
      (one : (s t : Option Text)
        → C s
        → C t
        → cmp_order (order_of s) (order_of t) ≡ eq
        → s ≡ t) where
    abbrev AllIn : List (Measurement F) → Type 0
    AllIn ms = All (λ (m : Measurement F). C m.parameter) ms

    abbrev Sorted : List (Measurement F) → Type 0
    Sorted ms = IsSorted cmp_measurements (cmp_measurements-Ordered F) ms

    apart :
        (a b : Measurement F) (cs : List (Measurement F))
        → AllIn (a ∷ b ∷ cs)
        → AtMost cmp_measurements (cmp_measurements-Ordered F) a b
        → All (AtMost cmp_measurements (cmp_measurements-Ordered F) b) cs
        → key a ≢ key b
        → All (λ c. key a ≢ key c) cs
    apart a b [] h below above ne = tt
    apart a b (c ∷ cs) h below above ne = (
      (λ same. ne (between C one a b c h.0 h.1.0 below above.0 same)),
      apart a b cs (h.0, (h.1.0, h.1.1.1)) below above.1 ne,
    )

    chunk_by-HaveOwnKeys :
        (ms : List (Measurement F))
        → AllIn ms
        → Sorted ms
        → HaveOwnKeys (heads (chunk_by is_same_key ms))
    unfolding chunk_by
    chunk_by-HaveOwnKeys [] h s = tt
    chunk_by-HaveOwnKeys (a ∷ rest) h s =
        attach-HaveOwnKeys a (chunk_by is_same_key rest)
          (λ b bs others e differs.
            let split : rest ≡ b ∷ (bs ++ joined others) =
              sym (joined-chunk_by rest) ∙ ap joined e in
            heads-All (λ c. key a ≢ key c) rest (from_first b (bs ++ joined others) split differs))
          (chunk_by-IsSection rest) (chunk_by-HaveOwnKeys rest h.1 s.1)
      where
        from_first :
            (b : Measurement F) (cs : List (Measurement F))
            → rest ≡ b ∷ cs
            → is_same_key a b ≡ false
            → All (λ c. key a ≢ key c) rest
        from_first b cs split differs =
            let members = subst AllIn split h.1 in
            let sorted = subst Sorted split s.1 in
            let below =
              subst (All (AtMost cmp_measurements (cmp_measurements-Ordered F) a)) split s.0 in
            let ne : key a ≢ key b = λ same. ground (arith, is_same_key_refl a b same, differs) in
            subst (All (λ c. key a ≢ key c)) (sym split)
              (ne, apart a b cs (h.0, members) below.0 sorted.0 ne)

    -- If parameters that compare as equal are spelled alike, the sections of the measurements as they are
    -- read, in any order, hold each of them once, no section is empty or mixes keys, and no two sections
    -- have the same group and parameter.
    pub sections_lem :
        (ms : List (Measurement F))
        → All (λ (m : Measurement F). C m.parameter) ms
        → let chunks = sections (sort_measurements ms) in
          Perm (joined chunks) ms × All IsSection chunks × HaveOwnKeys (heads chunks)
    unfolding sections sort_measurements
    sections_lem ms h =
        let v = cmp_measurements-Ordered F in
        let sorted = sort_by cmp_measurements ms in
        (
          subst (λ l. Perm l ms) (sym (joined-chunk_by sorted))
              (sort_by-Perm cmp_measurements v ms),
          chunk_by-IsSection sorted,
          chunk_by-HaveOwnKeys sorted
              (sort_by-All cmp_measurements v (λ (m : Measurement F). C m.parameter) ms h)
              (sort_by-IsSorted cmp_measurements v ms),
        )
