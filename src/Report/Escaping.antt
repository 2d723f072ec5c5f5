-- ===== src/Report/Escaping.antt =====
-- waltz-comparison/src/bin/report.rs: what `escape` makes of a text.
use waltz.Base.{
  ℕ, ◌≡◌, ◌≢◌, refl, sym, ap, ◌∙◌, inl, inr, false, Option, none, some, [], ◌∷◌, ◌++◌, ◌==◌,
  if◌then◌else◌, Bool-cases, All, All-append, arith,
}
use mathlib.Core.List.{append_assoc}
use waltz.Report.Strings.{Text, is_same, replace}
use waltz.Report.{escape}

-- A reader of the entities: behind `&`, the characters up to `;` stand backwards.
abbrev character : Text → ℕ
character p =
    if is_same p (112 ∷ 109 ∷ 97 ∷ []) then 38 else (if is_same p (116 ∷ 108 ∷ []) then 60 else 62)

unfoldable pub unescape_from : Option Text → Text → Text
unescape_from none [] = []
unescape_from none (c ∷ s) =
    let entity = unescape_from (some []) s in
    let rest = unescape_from none s in if c == 38 then entity else c ∷ rest
unescape_from (some p) [] = []
unescape_from (some p) (c ∷ s) =
    let longer = unescape_from (some (c ∷ p)) s in
    let rest = unescape_from none s in if c == 59 then character p ∷ rest else longer

unfoldable pub unescape : Text → Text
unfolding unescape_from
unescape s = unescape_from none s

-- The entity of one character.
abbrev entity : ℕ → Text
entity c =
    if c == 38
    then 38 ∷ 97 ∷ 109 ∷ 112 ∷ 59 ∷ []
    else (if c == 60
        then 38 ∷ 108 ∷ 116 ∷ 59 ∷ []
        else (if c == 62 then 38 ∷ 103 ∷ 116 ∷ 59 ∷ [] else c ∷ []))

replace-append : (c : ℕ) (by s t : Text) → replace c by (s ++ t) ≡ replace c by s ++ replace c by t
unfolding replace
replace-append c by [] t = refl
replace-append c by (d ∷ s) t = elim (Bool-cases (d == c)) [
  | inl e ↦ rw e (
      ap (λ u. by ++ u) (replace-append c by s t)
      ∙ sym (append_assoc by (replace c by s) (replace c by t)))
  | inr e ↦ rw e (ap (λ u. d ∷ u) (replace-append c by s t))
]

abbrev ampersand : Text
ampersand = 38 ∷ 97 ∷ 109 ∷ 112 ∷ 59 ∷ []

abbrev less : Text
less = 38 ∷ 108 ∷ 116 ∷ 59 ∷ []

abbrev greater : Text
greater = 38 ∷ 103 ∷ 116 ∷ 59 ∷ []

escape-append : (s t : Text) → escape (s ++ t) ≡ escape s ++ escape t
unfolding escape
escape-append s t =
    let s' = replace 38 ampersand s in
    let t' = replace 38 ampersand t in
    ap (λ u. replace 62 greater (replace 60 less u)) (replace-append 38 ampersand s t)
    ∙ ap (replace 62 greater) (replace-append 60 less s' t')
    ∙ replace-append 62 greater (replace 60 less s') (replace 60 less t')

escape-character : (c : ℕ) → escape (c ∷ []) ≡ entity c
unfolding escape replace
escape-character c = elim (Bool-cases (c == 38)) [
  | inl amp ↦ rw amp refl
  | inr no_amp ↦ elim (Bool-cases (c == 60)) [
    | inl is_less ↦ rw (no_amp, is_less, replace) refl
    | inr no_less ↦ elim (Bool-cases (c == 62)) [
      | inl more ↦ rw (no_amp, no_less, more, replace) refl
      | inr no_more ↦ rw (no_amp, no_less, no_more, replace) refl
    ]
  ]
]

escape-cons : (c : ℕ) (s : Text) → escape (c ∷ s) ≡ entity c ++ escape s
escape-cons c s = escape-append (c ∷ []) s ∙ ap (λ u. u ++ escape s) (escape-character c)

passed :
    (c : ℕ) (s : Text) → c == 38 ≡ false → unescape_from none (c ∷ s) ≡ c ∷ unescape_from none s
unfolding unescape_from
passed c s no_amp = rw no_amp refl

unescape-entity : (c : ℕ) (s : Text) → unescape_from none (entity c ++ s) ≡ c ∷ unescape_from none s
unfolding unescape_from is_same
unescape-entity c s = elim (Bool-cases (c == 38)) [
  | inl amp ↦ let e : 38 ≡ c = ground arith in rw amp (ap (λ d. d ∷ unescape_from none s) e)
  | inr no_amp ↦ elim (Bool-cases (c == 60)) [
    | inl is_less ↦
        let e : 60 ≡ c = ground arith in rw (no_amp, is_less) (ap (λ d. d ∷ unescape_from none s) e)
    | inr no_less ↦ elim (Bool-cases (c == 62)) [
      | inl more ↦
          let e : 62 ≡ c = ground arith in
          rw (no_amp, no_less, more) (ap (λ d. d ∷ unescape_from none s) e)
      | inr no_more ↦ rw (no_amp, no_less, no_more) (passed c s no_amp)
    ]
  ]
]

-- No markup.
abbrev pub IsPlain : ℕ → Type 0
IsPlain c = (c ≢ 60) × (c ≢ 62)

entity-IsPlain : (c : ℕ) → All IsPlain (entity c)
entity-IsPlain c = elim (Bool-cases (c == 38)) [
  | inl amp ↦ rw amp (ground arith)
  | inr no_amp ↦ elim (Bool-cases (c == 60)) [
    | inl is_less ↦ rw (no_amp, is_less) (ground arith)
    | inr no_less ↦ elim (Bool-cases (c == 62)) [
      | inl more ↦ rw (no_amp, no_less, more) (ground arith)
      | inr no_more ↦ rw (no_amp, no_less, no_more) (ground arith)
    ]
  ]
]

-- The escaped text of every text holds neither `<` nor `>`, and a reader of the three entities gets
-- the text back from it.
pub escape_lem : (s : Text) → All IsPlain (escape s) × (unescape (escape s) ≡ s)
unfolding unescape unescape_from escape replace
escape_lem [] = (tt, refl)
escape_lem (c ∷ s) =
    let (plain, back) = escape_lem s in
    rw (escape-cons c s) (
      All-append IsPlain (entity c) (escape s) (entity-IsPlain c) plain,
      unescape-entity c (escape s) ∙ ap (λ t. c ∷ t) back,
    )
