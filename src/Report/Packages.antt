-- ===== src/Report/Packages.antt =====
-- waltz-comparison/src/bin/report.rs: the lines of a lock file's packages, and what
-- `read_versions` keeps of them.
use waltz.Base.{
  ◌≡◌, refl, sym, ap, ◌∙◌, inl, inr, true, false, Option, none, some, List, [], ◌∷◌, ◌++◌,
  if◌then◌else◌, Bool-cases, Option-cases, All, arith,
}
use waltz.Report.Strings.{Text, is_same, contains, strip_prefix}
use waltz.Report.Lines.{is_same-eq, trim_matches-quoted}
use waltz.Report.{
  packages, name_prefix, version_prefix, is_quote, insert, get, read_version_line,
  read_version_lines,
}

-- A package of a lock file: its name, its version and its further lines.
pub record Package : Type 0 where
  pub name : Text
  pub version : Text
  pub further : List Text

abbrev quoted : Text → Text
quoted s = 34 ∷ s ++ 34 ∷ []

abbrev pub package_lines : List Package → List Text
package_lines [] = []
package_lines (p ∷ ps) =
    (name_prefix ++ quoted p.name)
    ∷ (version_prefix ++ quoted p.version)
    ∷ (p.further ++ package_lines ps)

abbrev IsUnquoted : Text → Type 0
IsUnquoted s = All (λ c. is_quote c ≡ false) s

-- A line that names no package.
abbrev pub IsOther : Text → Type 0
IsOther line = strip_prefix name_prefix line ≡ none

abbrev pub IsPackage : Package → Type 0
IsPackage p = IsUnquoted p.name × IsUnquoted p.version × All IsOther p.further

-- The version of the last package of that name.
abbrev pub last_version : Text → List Package → Option Text → Option Text
last_version name [] before = before
last_version name (p ∷ ps) before =
    last_version name ps (if is_same name p.name then some p.version else before)

get-insert :
    (j name version : Text) (versions : List (Text × Text))
    → get j (insert name version versions)
      ≡ (if is_same j name then some version else get j versions)
unfolding get insert
get-insert j name version [] = refl
get-insert j name version ((n, v) ∷ versions) = elim (Bool-cases (is_same name n)) [
  | inl same ↦ rw same (elim (Bool-cases (is_same j name)) [
    | inl here ↦ rw here refl
    | inr away ↦
        let e : is_same j n ≡ false = ap (is_same j) (sym (is_same-eq name n same)) ∙ away in
        rw (away, e) refl
  ])
  | inr differs ↦ rw differs (elim (Bool-cases (is_same j n)) [
    | inl here ↦ elim (Bool-cases (is_same j name)) [
      | inl both ↦ absurd (apart (sym (is_same-eq j name both)) here differs)
      | inr away ↦ rw (here, away) refl
    ]
    | inr away ↦ rw away (get-insert j name version versions)
  ])
]
  where
    apart : name ≡ j → is_same j n ≡ true → is_same name n ≡ false → ⊥
    apart e here differs = let same = ap (λ k. is_same k n) e in ground (arith, same, here, differs)

-- Behind a version no name waits, so that other lines change nothing.
line_skipped :
    (line : Text) (versions : List (Text × Text))
    → IsOther line
    → read_version_line line none versions ≡ (none, versions)
unfolding read_version_line
line_skipped line versions h =
    rw (h, read_version_line)
      (elim (Option-cases (strip_prefix version_prefix line)) [
        | inl e ↦ rw (e, read_version_line) refl
        | inr (value, e) ↦ rw (e, read_version_line) refl
      ])

pub others_skipped :
    (others rest : List Text) (versions : List (Text × Text))
    → All IsOther others
    → read_version_lines (others ++ rest) none versions ≡ read_version_lines rest none versions
unfolding read_version_lines
others_skipped [] rest versions h = refl
others_skipped (line ∷ others) rest versions h =
    ap (λ (q : Option Text × List (Text × Text)). read_version_lines (others ++ rest) q.0 q.1)
      (line_skipped line versions h.0)
    ∙ others_skipped others rest versions h.1

module _ (p : Package) (h : IsPackage p) where
  name_read :
      (name : Option Text) (versions : List (Text × Text))
      → read_version_line (name_prefix ++ quoted p.name) name versions ≡ (some p.name, versions)
  unfolding read_version_line strip_prefix
  name_read name versions = rw (trim_matches-quoted is_quote 34 p.name refl h.0) refl

  version_read :
      (versions : List (Text × Text))
      → read_version_line (version_prefix ++ quoted p.version) (some p.name) versions
        ≡ (none, if contains packages p.name then insert p.name p.version versions else versions)
  unfolding read_version_line strip_prefix
  version_read versions = rw (trim_matches-quoted is_quote 34 p.version refl h.1) refl

read_version_lines-nil :
    (versions : List (Text × Text)) → read_version_lines [] none versions ≡ versions
unfolding read_version_lines
read_version_lines-nil versions = refl

read_version_lines-cons :
    (line : Text) (rest : List Text) (name : Option Text) (versions : List (Text × Text))
    → read_version_lines (line ∷ rest) name versions ≡ (
        let (name', versions') = read_version_line line name versions in
        read_version_lines rest name' versions')
unfolding read_version_lines
read_version_lines-cons line rest name versions = refl

module _ (p : Package) (rest : List Text) (versions : List (Text × Text)) (h : IsPackage p) where
  package_read :
      read_version_lines
        ((name_prefix ++ quoted p.name)
          ∷ (version_prefix ++ quoted p.version)
          ∷ (p.further ++ rest))
        none
        versions
      ≡ read_version_lines rest none
          (if contains packages p.name then insert p.name p.version versions else versions)
  package_read =
      read_version_lines-cons (name_prefix ++ quoted p.name) _ none versions
      ∙ ap
          (λ (q : Option Text × List (Text × Text)).
            read_version_lines ((version_prefix ++ quoted p.version) ∷ (p.further ++ rest)) q.0 q.1)
          (name_read p h none versions)
      ∙ read_version_lines-cons (version_prefix ++ quoted p.version) _ (some p.name) versions
      ∙ ap
          (λ (q : Option Text × List (Text × Text)). read_version_lines (p.further ++ rest) q.0 q.1)
          (version_read p h versions)
      ∙ others_skipped p.further rest _ h.2

-- The versions behind the lines of packages.
pub get-package_lines :
    (n : Text) (ps : List Package) (versions : List (Text × Text))
    → All IsPackage ps
    → get n (read_version_lines (package_lines ps) none versions)
      ≡ (if contains packages n then last_version n ps (get n versions) else get n versions)
get-package_lines n [] versions h =
    ap (get n) (read_version_lines-nil versions)
    ∙ elim (Bool-cases (contains packages n)) [ inl e ↦ rw e refl | inr e ↦ rw e refl ]
get-package_lines n (p ∷ ps) versions h =
    let next = if contains packages p.name then insert p.name p.version versions else versions in
    ap (get n) (package_read p (package_lines ps) versions h.0)
    ∙ get-package_lines n ps next h.1
    ∙ elim (Bool-cases (contains packages n)) [
      | inl wanted ↦ rw wanted (ap (last_version n ps) (changed_for wanted))
      | inr unwanted ↦ rw unwanted (kept unwanted)
    ]
  where
    changed :
        get n (insert p.name p.version versions)
        ≡ (if is_same n p.name then some p.version else get n versions)
    changed = get-insert n p.name p.version versions

    changed_for :
        contains packages n ≡ true
        → get n (if contains packages p.name then insert p.name p.version versions else versions)
          ≡ (if is_same n p.name then some p.version else get n versions)
    changed_for wanted = elim (Bool-cases (contains packages p.name)) [
      | inl e ↦ rw e changed
      | inr e ↦ rw e (elim (Bool-cases (is_same n p.name)) [
        | inr away ↦ rw away refl
        | inl here ↦
            let same = ap (contains packages) (is_same-eq n p.name here) in
            absurd (ground (arith, e, same, wanted))
      ])
    ]

    kept :
        contains packages n ≡ false
        → get n (if contains packages p.name then insert p.name p.version versions else versions)
          ≡ get n versions
    kept unwanted = elim (Bool-cases (contains packages p.name)) [
      | inr e ↦ rw e refl
      | inl e ↦ rw e (
          changed ∙ elim (Bool-cases (is_same n p.name)) [
            | inr away ↦ rw away refl
            | inl here ↦
                let same = ap (contains packages) (is_same-eq n p.name here) in
                absurd (ground (arith, e, same, unwanted))
          ])
    ]
