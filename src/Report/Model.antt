-- ===== src/Report/Model.antt =====
-- waltz-comparison/src/bin/report.rs: what `model_name` makes of a text.
use waltz.Base.{
  ℕ, ◌≡◌, refl, ap, ◌∙◌, Bool, true, false, some, List, [], ◌∷◌, ◌++◌, ◌==◌, All, arith,
}
use waltz.Report.Strings.{Text, split_once, trim_matches, is_whitespace, lines}
use waltz.Report.Lines.{IsLine, join_lines, lines-join_lines}
use waltz.Report.{find, is_model_line, known_model, model_name}

find-first :
    (test : Text → Bool) (others rest : List Text) (line : Text)
    → All (λ l. test l ≡ false) others
    → test line ≡ true
    → find test (others ++ line ∷ rest) ≡ some line
unfolding find
find-first test [] rest line h e = rw e refl
find-first test (other ∷ others) rest line h e = rw h.0 (find-first test others rest line h.1 e)

split_once-first :
    (c : ℕ) (s t : Text) → All (λ d. d == c ≡ false) s → split_once c (s ++ c ∷ t) ≡ some (s, t)
unfolding split_once
split_once-first c [] t h = let e : c == c ≡ true = ground arith in rw e refl
split_once-first c (d ∷ s) t h = rw (h.0, split_once-first c s t h.1) refl

model_name-found :
    (lower : Text → Text) (text line key model : Text)
    → find (is_model_line lower) (lines text) ≡ some line
    → split_once 58 line ≡ some (key, model)
    → model_name lower text ≡ known_model (trim_matches is_whitespace model)
unfolding model_name
model_name-found lower text line key model found split =
    rw (found, model_name, split, model_name) refl

-- Of a text of lines, `model_name` is the trimmed value behind the colon of the first line that begins
-- with `model name` in lower case, unless it is empty or a dash.
model_name_lem :
    (lower : Text → Text) (others rest : List Text) (key model : Text)
    → All (λ l. is_model_line lower l ≡ false) others
    → All (λ d. d == 58 ≡ false) key
    → is_model_line lower (key ++ 58 ∷ model) ≡ true
    → All IsLine (others ++ (key ++ 58 ∷ model) ∷ rest)
    → model_name lower (join_lines (others ++ (key ++ 58 ∷ model) ∷ rest))
      ≡ known_model (trim_matches is_whitespace model)
model_name_lem lower others rest key model not_before is_key starts are_lines =
    model_name-found lower _ (key ++ 58 ∷ model) key model
      (ap (find (is_model_line lower))
          (lines-join_lines (others ++ (key ++ 58 ∷ model) ∷ rest) are_lines)
        ∙ find-first (is_model_line lower) others rest (key ++ 58 ∷ model) not_before starts)
      (split_once-first 58 key model is_key)
