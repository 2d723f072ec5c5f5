-- ===== src/Report/Strings.antt =====
-- waltz-comparison/src/bin/report.rs: what the report uses of `str`. A text is the list of its code
-- points, which compares as `str` does.
use waltz.Base.{
  ℕ, Bool, true, false, Option, none, some, List, [], ◌∷◌, ◌++◌, ◌==◌, leb, if◌then◌else◌, ◌&&◌,
  ◌||◌,
}
use mathlib.Core.List.{reverse}

abbrev pub Text : Type 0
Text = List ℕ

unfoldable pub is_same : Text → Text → Bool
is_same [] [] = true
is_same [] (d ∷ t) = false
is_same (c ∷ s) [] = false
is_same (c ∷ s) (d ∷ t) = if c == d then is_same s t else false

-- `contains` of a slice of texts.
unfoldable pub contains : List Text → Text → Bool
unfolding is_same
contains [] s = false
contains (t ∷ ts) s = if is_same t s then true else contains ts s

-- `replace`, of one character.
unfoldable pub replace : ℕ → Text → Text → Text
replace c by [] = []
replace c by (d ∷ s) = let rest = replace c by s in if d == c then by ++ rest else d ∷ rest

unfoldable pub strip_prefix : Text → Text → Option Text
strip_prefix [] s = some s
strip_prefix (c ∷ p) [] = none
strip_prefix (c ∷ p) (d ∷ s) = let rest = strip_prefix p s in if c == d then rest else none

-- `split_once`: the parts before and behind the first `c`.
unfoldable pub split_once : ℕ → Text → Option (Text × Text)
split_once c [] = none
split_once c (d ∷ s) =
    let rest = split_once c s in
    if d == c
    then some ([], s)
    else elim rest [ none ↦ none | some (before, behind) ↦ some (d ∷ before, behind) ]

unfoldable pub trim_start : (ℕ → Bool) → Text → Text
trim_start drops [] = []
trim_start drops (c ∷ s) = let rest = trim_start drops s in if drops c then rest else c ∷ s

-- `trim_matches`, of the characters that `drops` tells.
unfoldable pub trim_matches : (ℕ → Bool) → Text → Text
unfolding trim_start
trim_matches drops s = reverse (trim_start drops (reverse (trim_start drops s)))

-- `char::is_whitespace`.
abbrev pub is_whitespace : ℕ → Bool
is_whitespace c =
    (leb 9 c && leb c 13)
    || (c == 32)
    || (c == 133)
    || (c == 160)
    || (c == 5760)
    || (leb 8192 c && leb c 8202)
    || (c == 8232)
    || (c == 8233)
    || (c == 8239)
    || (c == 8287)
    || (c == 12288)

-- The line that was read backwards, behind which a line feed stands.
unfoldable pub ended_line : Text → Text
ended_line [] = []
ended_line (c ∷ s) = if c == 13 then reverse s else reverse (c ∷ s)

-- `lines`, behind the text of the current line, which stands backwards.
unfoldable pub lines_from : Text → Text → List Text
unfolding ended_line
lines_from [] [] = []
lines_from (c ∷ current) [] = reverse (c ∷ current) ∷ []
lines_from current (c ∷ s) =
    let behind = lines_from [] s in
    let rest = lines_from (c ∷ current) s in if c == 10 then ended_line current ∷ behind else rest

unfoldable pub lines : Text → List Text
unfolding lines_from
lines s = lines_from [] s
