-- ===== src/Report.antt =====
-- waltz-comparison/src/bin/report.rs: the report on the benchmarks, up to its markup. Files, commands,
-- JSON and the formats of numbers are arguments.
pub mod Strings
pub mod Escaping
pub mod Lines
pub mod Packages
pub mod Versions
pub mod Model
pub mod Order
pub mod Ordered
pub mod Sorting
pub mod Measurements
pub mod Keys
pub mod Sections
use waltz.Base.{
  ℕ, ◌+◌, ◌*◌, ◌-◌, ◌^◌, ◌<◌, Bool, true, false, Option, none, some, List, [], ◌∷◌, ◌++◌, ◌==◌, ltb,
  leb, not, if◌then◌else◌, ◌&&◌, ◌||◌, Result, ok, err, is_some,
}
use mathlib.Core.Option
use Prim.Native.Nat.{Ordering, compare, lt, eq, gt}
use Strings.{
  Text, is_same, contains, replace, strip_prefix, split_once, trim_matches, is_whitespace, lines,
}

-- `escape`.
unfoldable pub escape : Text → Text
unfolding replace
escape value =
    replace 62 (38 ∷ 103 ∷ 116 ∷ 59 ∷ [])
      (replace 60 (38 ∷ 108 ∷ 116 ∷ 59 ∷ []) (replace 38 (38 ∷ 97 ∷ 109 ∷ 112 ∷ 59 ∷ []) value))

abbrev pub unknown : Text
unknown = 117 ∷ 110 ∷ 107 ∷ 110 ∷ 111 ∷ 119 ∷ 110 ∷ []

unfoldable pub or_unknown : Option Text → Text
or_unknown none = unknown
or_unknown (some value) = value

-- `or_none`, up to the log.
unfoldable pub or_none {ℓ} : {E : Type ℓ} → Result Text E → Option Text
or_none (ok value) = some value
or_none (err e) = none

-- `PACKAGES`.
abbrev pub packages : List Text
packages =
    (107 ∷ 97 ∷ 109 ∷ 101 ∷ 111 ∷ [])
    ∷ (114 ∷ 97 ∷ 99 ∷ 116 ∷ 111 ∷ 114 ∷ [])
    ∷ (119 ∷ 97 ∷ 108 ∷ 116 ∷ 122 ∷ [])
    ∷ []

abbrev pub name_prefix : Text
name_prefix = 110 ∷ 97 ∷ 109 ∷ 101 ∷ 32 ∷ 61 ∷ 32 ∷ []

abbrev pub version_prefix : Text
version_prefix = 118 ∷ 101 ∷ 114 ∷ 115 ∷ 105 ∷ 111 ∷ 110 ∷ 32 ∷ 61 ∷ 32 ∷ []

abbrev pub is_quote : ℕ → Bool
is_quote c = c == 34

-- `BTreeMap`, as far as it is used: the last of the values of one name.
unfoldable pub insert : Text → Text → List (Text × Text) → List (Text × Text)
unfolding is_same
insert name version [] = (name, version) ∷ []
insert name version ((n, v) ∷ versions) =
    let rest = insert name version versions in
    if is_same name n then (name, version) ∷ versions else (n, v) ∷ rest

unfoldable pub get : Text → List (Text × Text) → Option Text
unfolding is_same
get name [] = none
get name ((n, v) ∷ versions) =
    let rest = get name versions in if is_same name n then some v else rest

-- What a line makes of the name that waits for its version, and of the versions.
unfoldable pub read_version_line :
    Text → Option Text → List (Text × Text) → Option Text × List (Text × Text)
unfolding insert strip_prefix trim_matches contains
read_version_line line name versions = elim (strip_prefix name_prefix line) [
  | some value ↦ (some (trim_matches is_quote value), versions)
  | none ↦ elim (strip_prefix version_prefix line) [
    | none ↦ (name, versions)
    | some value ↦ elim name [
      | none ↦ (none, versions)
      | some n ↦ (
        none,
        if contains packages n then insert n (trim_matches is_quote value) versions else versions,
      )
    ]
  ]
]

unfoldable pub read_version_lines :
    List Text → Option Text → List (Text × Text) → List (Text × Text)
unfolding read_version_line
read_version_lines [] name versions = versions
read_version_lines (line ∷ rest) name versions =
    let (name', versions') = read_version_line line name versions in
    read_version_lines rest name' versions'

-- The packages without a version.
unfoldable pub missing_from : List Text → List (Text × Text) → List Text
unfolding get
missing_from [] versions = []
missing_from (name ∷ rest) versions =
    let others = missing_from rest versions in
    elim (get name versions) [ none ↦ name ∷ others | some v ↦ others ]

-- `read_versions`, of the lock file's text: an error lists the missing packages.
unfoldable pub read_versions : Text → Result (List (Text × Text)) (List Text)
unfolding read_version_lines missing_from lines
read_versions lock =
    let versions = read_version_lines (lines lock) none [] in
    elim (missing_from packages versions) [ [] ↦ ok versions | name ∷ rest ↦ err (name ∷ rest) ]

abbrev pub model_prefix : Text
model_prefix = 109 ∷ 111 ∷ 100 ∷ 101 ∷ 108 ∷ 32 ∷ 110 ∷ 97 ∷ 109 ∷ 101 ∷ []

-- `find`.
unfoldable pub find : (Text → Bool) → List Text → Option Text
find test [] = none
find test (line ∷ rest) = let later = find test rest in if test line then some line else later

-- `text.lines().find(..)`, where `lower` is `str::to_lowercase`.
abbrev pub is_model_line : (Text → Text) → Text → Bool
is_model_line lower line = is_some (strip_prefix model_prefix (lower line))

abbrev pub known_model : Text → Option Text
known_model model = if is_same model [] || is_same model (45 ∷ []) then none else some model

-- `model_name`.
unfoldable pub model_name : (Text → Text) → Text → Option Text
unfolding find lines split_once trim_matches is_same
model_name lower text = elim (find (is_model_line lower) (lines text)) [
  | none ↦ none
  | some line ↦ elim (split_once 58 line) [
    | none ↦ none
    | some (key, model) ↦ known_model (trim_matches is_whitespace model)
  ]
]

-- `read_cpu`, of the results of reading `/proc/cpuinfo` and of running `lscpu`; the second is run only
-- where the first gives no name.
unfoldable pub read_cpu {ℓ} :
    {E : Type ℓ} → (Text → Text) → Option Text → Result Text E → Option Text
unfolding model_name or_none
read_cpu lower cpuinfo lscpu = elim (Option.bind cpuinfo (model_name lower)) [
  | some model ↦ some model
  | none ↦ Option.bind (or_none lscpu) (model_name lower)
]
