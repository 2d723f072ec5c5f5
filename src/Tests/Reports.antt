-- ===== src/Tests/Reports.antt =====
-- Tests of waltz-comparison/src/bin/report.rs.
use waltz.Base.{
  ℕ, Option, ◌≡◌, ◌≢◌, refl, sym, ap, ◌∙◌, ◌⊎◌, none, some, List, [], ◌∷◌, ◌++◌, All, ok, err,
  if◌then◌else◌, arith,
}
use waltz.Report.Strings.{Text, contains, strip_prefix}
use waltz.Report.{escape, packages, get, read_versions}
use Prim.Native.Nat.{lt, eq, gt}
use mathlib.Core.List.{Perm}
use waltz.Report.Measurements.{
  Measurement, cmp_order, order_of, parse_u64, sections, sort_measurements,
}
use waltz.Report.Sections.{joined, heads, IsSection, HaveOwnKeys, sections_lem}
use waltz.Report.Escaping.{IsPlain, unescape, escape_lem}
use waltz.Report.Lines.{join_lines}
use waltz.Report.Packages.{Package, package_lines, IsPackage, last_version}
use waltz.Report.Versions.{lacking, read_versions_lem}

-- `a<&`.
abbrev markup : Text
markup = 97 ∷ 60 ∷ 38 ∷ []

escape_lem_example : All IsPlain (escape markup) × (unescape (escape markup) ≡ markup)
escape_lem_example = escape_lem markup

-- `# x`, and packages: `waltz`, of version `1.0`, with a line `d`, then `kameo`, `b` and `ractor`.
abbrev header : List Text
header = (35 ∷ 32 ∷ 120 ∷ []) ∷ []

abbrev locked : List Package
locked =
    record {
      name = 119 ∷ 97 ∷ 108 ∷ 116 ∷ 122 ∷ [];
      version = 49 ∷ 46 ∷ 48 ∷ [];
      further = (100 ∷ []) ∷ [];
    }
    ∷ record { name = 107 ∷ 97 ∷ 109 ∷ 101 ∷ 111 ∷ []; version = 50 ∷ []; further = [] }
    ∷ record { name = 98 ∷ []; version = 50 ∷ []; further = [] }
    ∷ record { name = 114 ∷ 97 ∷ 99 ∷ 116 ∷ 111 ∷ 114 ∷ []; version = 50 ∷ []; further = [] }
    ∷ []

locked-IsPackage : All IsPackage locked
unfolding strip_prefix
locked-IsPackage = ground arith

read_versions_lem_example :
    let lock = join_lines (header ++ package_lines locked) in
    ((lacking packages locked ≡ [])
      × ((versions : List (Text × Text)) × (read_versions lock ≡ ok versions)
          × ((n : Text)
              → get n versions
                ≡ (if contains packages n then last_version n locked none else none))))
    ⊎ ((lacking packages locked ≢ []) × (read_versions lock ≡ err (lacking packages locked)))
unfolding strip_prefix
read_versions_lem_example =
    read_versions_lem header locked (refl, tt) locked-IsPackage (ground arith)

-- Two frameworks at the parameter 1, and one without a parameter, out of order.
abbrev measured : Text → Option Text → Measurement ℕ
measured framework parameter = record {
  group = 97 ∷ [];
  framework = framework;
  parameter = parameter;
  elements = 1;
  mean_ns = 1;
  lower_ns = 1;
  upper_ns = 1;
  elements_per_second = 1;
}

abbrev measurements : List (Measurement ℕ)
measurements =
    measured (98 ∷ []) (some (49 ∷ []))
    ∷ measured (97 ∷ []) none
    ∷ measured (97 ∷ []) (some (49 ∷ []))
    ∷ []

abbrev IsPlainParameter : Option Text → Type 0
IsPlainParameter none = Unit {0}
IsPlainParameter (some s) = s ≡ 49 ∷ []

spelled_alike :
    (s t : Option Text)
    → IsPlainParameter s
    → IsPlainParameter t
    → cmp_order (order_of s) (order_of t) ≡ eq
    → s ≡ t
unfolding cmp_order order_of parse_u64
spelled_alike none none a b e = refl
spelled_alike none (some t) a b e =
    let less : cmp_order (order_of none) (order_of (some t)) ≡ lt =
      ap (λ u. cmp_order (order_of none) (order_of (some u))) b in
    absurd (ground (arith, e, less))
spelled_alike (some s) none a b e =
    let more : cmp_order (order_of (some s)) (order_of none) ≡ gt =
      ap (λ u. cmp_order (order_of (some u)) (order_of none)) a in
    absurd (ground (arith, e, more))
spelled_alike (some s) (some t) a b e = ap some (a ∙ sym b)

sections_lem_example :
    let chunks = sections (sort_measurements measurements) in
    Perm (joined chunks) measurements × All IsSection chunks × HaveOwnKeys (heads chunks)
sections_lem_example =
    sections_lem IsPlainParameter spelled_alike measurements (refl, (tt, (refl, tt)))
