-- ===== src/Report/Lines.antt =====
-- waltz-comparison/src/bin/report.rs: the functions of `str` on lines that are made of parts.
use waltz.Base.{
  ℕ, ◌≡◌, refl, sym, ap, ◌∙◌, inl, inr, Bool, true, false, some, List, [], ◌∷◌, ◌++◌, ◌==◌,
  Bool-cases, All, All-append, arith,
}
use mathlib.Core.List.{
  reverse, reverse-append, reverse-cons, reverse-reverse, append-nil, append_assoc,
}
use waltz.Report.Strings.{
  Text, is_same, strip_prefix, trim_start, trim_matches, ended_line, lines_from, lines,
}

pub is_same_refl : (s : Text) → is_same s s ≡ true
unfolding is_same
is_same_refl [] = refl
is_same_refl (c ∷ s) = let e : c == c ≡ true = ground arith in rw e (is_same_refl s)

pub is_same-eq : (s t : Text) → is_same s t ≡ true → s ≡ t
unfolding is_same
is_same-eq [] [] e = refl
is_same-eq [] (d ∷ t) e = absurd (ground arith)
is_same-eq (c ∷ s) [] e = absurd (ground arith)
is_same-eq (c ∷ s) (d ∷ t) e = elim (Bool-cases (c == d)) [
  | inl same ↦
      let head : c ≡ d = ground arith in
      let tail : is_same s t ≡ true = ground (arith, e, same) in
      ap (λ k. k ∷ s) head ∙ ap (λ u. d ∷ u) (is_same-eq s t tail)
  | inr differs ↦ absurd (ground (arith, e, differs))
]

pub strip_prefix-append : (p s : Text) → strip_prefix p (p ++ s) ≡ some s
unfolding strip_prefix
strip_prefix-append [] s = refl
strip_prefix-append (c ∷ p) s =
    let e : c == c ≡ true = ground arith in rw e (strip_prefix-append p s)

All-reverse : (P : ℕ → Type 0) (s : Text) → All P s → All P (reverse s)
All-reverse P [] h = tt
All-reverse P (c ∷ s) h =
    rw (reverse-cons c s) (All-append P (reverse s) (c ∷ []) (All-reverse P s h.1) (h.0, tt))

-- Where nothing is dropped.
trim_start-kept :
    (drops : ℕ → Bool) (s : Text) → All (λ c. drops c ≡ false) s → trim_start drops s ≡ s
unfolding trim_start
trim_start-kept drops [] h = refl
trim_start-kept drops (c ∷ s) h = rw (h.0) refl

trim_matches-kept :
    (drops : ℕ → Bool) (s : Text) → All (λ c. drops c ≡ false) s → trim_matches drops s ≡ s
unfolding trim_matches
trim_matches-kept drops s h =
    rw (trim_start-kept drops s h, trim_start-kept drops (reverse s) (All-reverse _ s h))
      (reverse-reverse s)

-- The quotes around a text that has none.
pub trim_matches-quoted :
    (drops : ℕ → Bool) (q : ℕ) (s : Text)
    → drops q ≡ true
    → All (λ c. drops c ≡ false) s
    → trim_matches drops (q ∷ s ++ q ∷ []) ≡ s
unfolding trim_matches trim_start
trim_matches-quoted drops q [] quote kept = rw (quote, trim_start) refl
trim_matches-quoted drops q (c ∷ s) quote kept =
    rw (quote, trim_start, kept.0)
      (ap (λ t. reverse (trim_start drops t)) (reverse-append (c ∷ s) (q ∷ []))
        ∙ ap reverse
            (first_dropped ∙ trim_start-kept drops (reverse (c ∷ s)) (All-reverse _ (c ∷ s) kept))
        ∙ reverse-reverse (c ∷ s))
  where
    first_dropped : trim_start drops (q ∷ reverse (c ∷ s)) ≡ trim_start drops (reverse (c ∷ s))
    first_dropped = rw quote refl

-- A line holds neither of the characters that end lines.
abbrev pub IsLine : Text → Type 0
IsLine s = All (λ c. (c == 10 ≡ false) × (c == 13 ≡ false)) s

ended_line-IsLine : (s : Text) → IsLine s → ended_line s ≡ reverse s
unfolding ended_line
ended_line-IsLine [] h = refl
ended_line-IsLine (c ∷ s) h = rw h.0.1 refl

abbrev pub join_lines : List Text → Text
join_lines [] = []
join_lines (l ∷ ls) = l ++ 10 ∷ join_lines ls

lines_from-line :
    (current l rest : Text)
    → IsLine l
    → lines_from current (l ++ 10 ∷ rest) ≡ ended_line (reverse l ++ current) ∷ lines_from [] rest
unfolding lines_from
lines_from-line current [] rest h = refl
lines_from-line current (c ∷ l) rest h = rw h.0.0 (
    lines_from-line (c ∷ current) l rest h.1
    ∙ ap (λ t. ended_line t ∷ lines_from [] rest)
        (sym
          (ap (λ u. u ++ current) (reverse-cons c l) ∙ append_assoc (reverse l) (c ∷ []) current)))

-- `lines` gives back the lines that a text is made of.
pub lines-join_lines : (ls : List Text) → All IsLine ls → lines (join_lines ls) ≡ ls
unfolding lines lines_from
lines-join_lines [] h = refl
lines-join_lines (l ∷ ls) h =
    lines_from-line [] l (join_lines ls) h.0
    ∙ ap (λ t. ended_line t ∷ lines_from [] (join_lines ls)) (append-nil (reverse l))
    ∙ ap (λ t. t ∷ lines_from [] (join_lines ls))
        (ended_line-IsLine (reverse l) (All-reverse _ l h.0) ∙ reverse-reverse l)
    ∙ ap (λ ts. l ∷ ts) (lines-join_lines ls h.1)
