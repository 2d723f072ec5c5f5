-- ===== src/Report/Versions.antt =====
-- waltz-comparison/src/bin/report.rs: what `read_versions` makes of a lock file.
use waltz.Base.{
  ◌≡◌, ◌≢◌, refl, sym, ap, ◌∙◌, ◌⊎◌, inl, inr, true, none, some, List, [], ◌∷◌, ◌++◌, if◌then◌else◌,
  All, ok, err,
}
use mathlib.Core.List.{nil≢cons}
use waltz.Report.Strings.{Text, is_same, contains, lines}
use waltz.Report.Lines.{IsLine, join_lines, lines-join_lines}
use waltz.Report.{packages, get, read_version_lines, missing_from, read_versions}
use waltz.Report.Packages.{
  Package, package_lines, IsOther, IsPackage, last_version, get-package_lines, others_skipped,
}

-- The names that no package has.
abbrev pub lacking : List Text → List Package → List Text
lacking [] ps = []
lacking (n ∷ ns) ps =
    let others = lacking ns ps in
    elim (last_version n ps none) [ none ↦ n ∷ others | some v ↦ others ]

module _ (ps : List Package) (versions : List (Text × Text))
    (found : (n : Text)
      → get n versions ≡ (if contains packages n then last_version n ps none else none)) where
  missing_from-lacking :
      (ns : List Text)
      → All (λ n. contains packages n ≡ true) ns
      → missing_from ns versions ≡ lacking ns ps
  unfolding missing_from
  missing_from-lacking [] h = refl
  missing_from-lacking (n ∷ ns) h =
      let there : get n versions ≡ last_version n ps none =
        found n ∙ ap (λ b. if b then last_version n ps none else none) h.0 in
      ap (λ o. elim o [ none ↦ n ∷ missing_from ns versions | some v ↦ missing_from ns versions ])
        there
      ∙ ap (λ others. elim (last_version n ps none) [ none ↦ n ∷ others | some v ↦ others ])
          (missing_from-lacking ns h.1)

packages-contained : All (λ n. contains packages n ≡ true) packages
unfolding contains is_same
packages-contained = (refl, (refl, (refl, tt)))

outcome :
    (lock : Text) (missing : List Text)
    → let versions = read_version_lines (lines lock) none [] in
      (missing_from packages versions ≡ missing)
      → ((missing ≡ []) × (read_versions lock ≡ ok versions))
        ⊎ ((missing ≢ []) × (read_versions lock ≡ err missing))
unfolding read_versions
outcome lock [] e = inl (refl, rw (e, read_versions) refl)
outcome lock (n ∷ ns) e =
    inr ((λ none_missing. nil≢cons (sym none_missing)), rw (e, read_versions) refl)

lock_read :
    (others : List Text) (ps : List Package)
    → All IsOther others
    → All IsPackage ps
    → All IsLine (others ++ package_lines ps)
    → read_version_lines (lines (join_lines (others ++ package_lines ps))) none []
      ≡ read_version_lines (package_lines ps) none []
lock_read others ps other_lines are_packages are_lines =
    ap (λ ls. read_version_lines ls none [])
      (lines-join_lines (others ++ package_lines ps) are_lines)
    ∙ others_skipped others (package_lines ps) [] other_lines

-- The versions of a lock file that is made of other lines and of packages, whose names and versions
-- are quoted and hold no quote: if each of the compared packages is there, its version, the last one
-- where it has several, and nothing for other names; if not, the error with those that are not there.
pub read_versions_lem :
    (others : List Text) (ps : List Package)
    → All IsOther others
    → All IsPackage ps
    → All IsLine (others ++ package_lines ps)
    → let lock = join_lines (others ++ package_lines ps) in
      ((lacking packages ps ≡ [])
        × ((versions : List (Text × Text)) × (read_versions lock ≡ ok versions)
            × ((n : Text)
                → get n versions ≡ (if contains packages n then last_version n ps none else none))))
      ⊎ ((lacking packages ps ≢ []) × (read_versions lock ≡ err (lacking packages ps)))
unfolding get
read_versions_lem others ps other_lines are_packages are_lines =
    let lock = join_lines (others ++ package_lines ps) in
    let versions = read_version_lines (lines lock) none [] in
    let found : (n : Text)
        → get n versions ≡ (if contains packages n then last_version n ps none else none) =
      λ n.
        ap (get n) (lock_read others ps other_lines are_packages are_lines)
        ∙ get-package_lines n ps [] are_packages in
    elim (outcome lock (lacking packages ps)
      (missing_from-lacking ps versions found packages packages-contained)) [
        | inl (complete, read) ↦ inl (complete, (versions, read, found))
        | inr failed ↦ inr failed
      ]
