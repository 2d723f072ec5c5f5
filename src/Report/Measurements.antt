-- ===== src/Report/Measurements.antt =====
-- waltz-comparison/src/bin/report.rs: the measurements, how they are read, ordered and put into sections.
use Prim.Native.Nat.{Ordering, compare, lt, eq, gt}
use waltz.Base.{
  ℕ, ◌+◌, ◌*◌, ◌-◌, ◌^◌, Bool, true, false, ◌&&◌, Option, none, some, List, [], ◌∷◌, ◌++◌, map,
  ◌==◌, ltb, leb, if◌then◌else◌, Result, ok, err,
}
use mathlib.Core.Option
use waltz.Report.Strings.{Text, is_same}
use waltz.Report.{escape}
use waltz.Report.Order.{then_with, cmp_text, sort_by, chunk_by}

-- What the report uses of `f64`.
pub record Float : Type 1 where
  pub F : Type 0
  pub zero : F
  pub hundred : F
  pub million : F
  pub billion : F
  pub of_u64 : ℕ → F
  pub times : F → F → F
  pub divide : F → F → F
  pub max : F → F → F
  pub is_above : F → F → Bool

-- What it uses of `serde_json::Value`.
pub record Json (F : Type 0) : Type 1 where
  pub Value : Type 0
  pub pointer : Value → Text → Option Value
  pub as_str : Value → Option Text
  pub as_u64 : Value → Option ℕ
  pub as_f64 : Value → Option F

pub record Measurement (F : Type 0) : Type 0 where
  pub group : Text
  pub framework : Text
  pub parameter : Option Text
  pub elements : ℕ
  pub mean_ns : F
  pub lower_ns : F
  pub upper_ns : F
  pub elements_per_second : F

-- `Measurement::key`.
abbrev pub key : {F : Type 0} → Measurement F → Text × Option Text
key m = (m.group, m.parameter)

pub data ParameterOrder : Type 0 where
  missing : ParameterOrder
  number : ℕ → ParameterOrder
  text : Text → ParameterOrder

-- The derived `Ord`.
unfoldable pub cmp_order : ParameterOrder → ParameterOrder → Ordering
cmp_order missing missing = eq
cmp_order missing (number n) = lt
cmp_order missing (text t) = lt
cmp_order (number m) missing = gt
cmp_order (number m) (number n) = compare m n
cmp_order (number m) (text t) = lt
cmp_order (text s) missing = gt
cmp_order (text s) (number n) = gt
cmp_order (text s) (text t) = cmp_text s t

-- `u64::from_str`: the digits, of which the leading ones are worth `value`.
unfoldable pub parse_digits : ℕ → Text → Option ℕ
parse_digits value [] = some value
parse_digits value (c ∷ s) =
    let next = value * 10 + (c - 48) in
    let rest = parse_digits next s in
    if leb 48 c && leb c 57 && ltb next (2 ^ 64) then rest else none

unfoldable pub parse_unsigned : Text → Option ℕ
unfolding parse_digits
parse_unsigned [] = none
parse_unsigned (c ∷ s) = parse_digits 0 (c ∷ s)

unfoldable pub parse_u64 : Text → Option ℕ
unfolding parse_unsigned
parse_u64 [] = none
parse_u64 (c ∷ s) = if c == 43 then parse_unsigned s else parse_unsigned (c ∷ s)

unfoldable pub order_of : Option Text → ParameterOrder
unfolding parse_u64
order_of none = missing
order_of (some parameter) = elim (parse_u64 parameter) [ some n ↦ number n | none ↦ text parameter ]

-- `parameter_order`.
unfoldable pub parameter_order : {F : Type 0} → Measurement F → ParameterOrder
unfolding order_of
parameter_order m = order_of m.parameter

-- The comparison of `read_measurements`.
unfoldable pub cmp_measurements : {F : Type 0} → Measurement F → Measurement F → Ordering
unfolding cmp_text cmp_order parameter_order then_with
cmp_measurements a b = then_with (cmp_text a.group b.group) (
    then_with (cmp_order (parameter_order a) (parameter_order b))
      (cmp_text a.framework b.framework))

unfoldable pub is_same_parameter : Option Text → Option Text → Bool
unfolding is_same
is_same_parameter none none = true
is_same_parameter none (some t) = false
is_same_parameter (some s) none = false
is_same_parameter (some s) (some t) = is_same s t

-- `a.key() == b.key()`.
unfoldable pub is_same_key : {F : Type 0} → Measurement F → Measurement F → Bool
unfolding is_same is_same_parameter
is_same_key a b = is_same a.group b.group && is_same_parameter a.parameter b.parameter

unfoldable pub and_then : {A B E : Type 0} → Result A E → (A → Result B E) → Result B E
and_then (ok a) f = f a
and_then (err e) f = err e

-- `with_context` of a field: the pointer to it stands for the error.
unfoldable pub field : {A : Type 0} → Text → Option A → Result A Text
field pointer none = err pointer
field pointer (some a) = ok a

-- The pointers of `read_measurement`.
abbrev pub group_id : Text
group_id = 47 ∷ 103 ∷ 114 ∷ 111 ∷ 117 ∷ 112 ∷ 95 ∷ 105 ∷ 100 ∷ []

abbrev pub function_id : Text
function_id = 47 ∷ 102 ∷ 117 ∷ 110 ∷ 99 ∷ 116 ∷ 105 ∷ 111 ∷ 110 ∷ 95 ∷ 105 ∷ 100 ∷ []

abbrev pub value_str : Text
value_str = 47 ∷ 118 ∷ 97 ∷ 108 ∷ 117 ∷ 101 ∷ 95 ∷ 115 ∷ 116 ∷ 114 ∷ []

abbrev pub throughput : Text
throughput =
    47 ∷ 116 ∷ 104 ∷ 114 ∷ 111 ∷ 117 ∷ 103 ∷ 104 ∷ 112 ∷ 117 ∷ 116 ∷ 47 ∷ 69 ∷ 108 ∷ 101 ∷ 109 ∷ 101
    ∷ 110 ∷ 116 ∷ 115 ∷ []

abbrev pub point_estimate : Text
point_estimate =
    47 ∷ 109 ∷ 101 ∷ 97 ∷ 110 ∷ 47 ∷ 112 ∷ 111 ∷ 105 ∷ 110 ∷ 116 ∷ 95 ∷ 101 ∷ 115 ∷ 116 ∷ 105 ∷ 109
    ∷ 97 ∷ 116 ∷ 101 ∷ []

abbrev pub lower_bound : Text
lower_bound =
    47 ∷ 109 ∷ 101 ∷ 97 ∷ 110 ∷ 47 ∷ 99 ∷ 111 ∷ 110 ∷ 102 ∷ 105 ∷ 100 ∷ 101 ∷ 110 ∷ 99 ∷ 101 ∷ 95
    ∷ 105 ∷ 110 ∷ 116 ∷ 101 ∷ 114 ∷ 118 ∷ 97 ∷ 108 ∷ 47 ∷ 108 ∷ 111 ∷ 119 ∷ 101 ∷ 114 ∷ 95 ∷ 98
    ∷ 111 ∷ 117 ∷ 110 ∷ 100 ∷ []

abbrev pub upper_bound : Text
upper_bound =
    47 ∷ 109 ∷ 101 ∷ 97 ∷ 110 ∷ 47 ∷ 99 ∷ 111 ∷ 110 ∷ 102 ∷ 105 ∷ 100 ∷ 101 ∷ 110 ∷ 99 ∷ 101 ∷ 95
    ∷ 105 ∷ 110 ∷ 116 ∷ 101 ∷ 114 ∷ 118 ∷ 97 ∷ 108 ∷ 47 ∷ 117 ∷ 112 ∷ 112 ∷ 101 ∷ 114 ∷ 95 ∷ 98
    ∷ 111 ∷ 117 ∷ 110 ∷ 100 ∷ []

module _ (float : Float) (json : Json float.F) where
  -- `string`, `count` and `number`.
  unfoldable pub string : json.Value → Text → Result Text Text
  unfolding field
  string value pointer = field pointer (Option.bind (json.pointer value pointer) json.as_str)

  unfoldable pub count : json.Value → Text → Result ℕ Text
  unfolding field
  count value pointer = field pointer (Option.bind (json.pointer value pointer) json.as_u64)

  unfoldable pub number_at : json.Value → Text → Result float.F Text
  unfolding field
  number_at value pointer = field pointer (Option.bind (json.pointer value pointer) json.as_f64)

  -- `read_measurement`, of the two files.
  unfoldable pub read_measurement : json.Value → json.Value → Result (Measurement float.F) Text
  unfolding string count number_at and_then
  read_measurement benchmark estimates = and_then (string benchmark group_id) (λ group.
      and_then (string benchmark function_id) (λ framework.
        and_then (count benchmark throughput) (λ elements.
          and_then (number_at estimates point_estimate) (λ mean_ns.
            and_then (number_at estimates lower_bound) (λ lower_ns.
              and_then (number_at estimates upper_bound) (λ upper_ns. ok (record {
                group = group;
                framework = framework;
                parameter = Option.bind (json.pointer benchmark value_str) json.as_str;
                elements = elements;
                mean_ns = mean_ns;
                lower_ns = lower_ns;
                upper_ns = upper_ns;
                elements_per_second =
                    float.divide (float.times (float.of_u64 elements) float.billion) mean_ns;
              })))))))

-- `read_measurements`, behind the reading of the files.
unfoldable pub sort_measurements : {F : Type 0} → List (Measurement F) → List (Measurement F)
unfolding sort_by cmp_measurements
sort_measurements measurements = sort_by cmp_measurements measurements

-- The chunks of `render_html`, one for each section.
unfoldable pub sections : {F : Type 0} → List (Measurement F) → List (List (Measurement F))
unfolding chunk_by is_same_key
sections measurements = chunk_by is_same_key measurements

-- `heading` of `render_section`.
unfoldable pub heading : Text → Option Text → Text
heading group none = group
heading group (some parameter) = group ++ 32 ∷ 40 ∷ parameter ++ 41 ∷ []

-- The values of a row of `render_section`, before they are formatted.
pub record Row (F : Type 0) : Type 0 where
  pub framework : Text
  pub mean : F
  pub throughput : F
  pub relative : F
  pub width : F

module _ (float : Float) where
  -- The fold of `fastest`.
  unfoldable pub fastest_of : float.F → List (Measurement float.F) → float.F
  fastest_of fastest [] = fastest
  fastest_of fastest (m ∷ ms) = fastest_of (float.max fastest m.elements_per_second) ms

  unfoldable pub row : float.F → Measurement float.F → Row float.F
  unfolding escape
  row fastest m =
      let relative =
        if float.is_above fastest float.zero
        then float.divide m.elements_per_second fastest
        else float.zero in
      record {
        framework = escape m.framework;
        mean = float.divide m.mean_ns float.million;
        throughput = float.divide m.elements_per_second float.million;
        relative = relative;
        width = float.times relative float.hundred;
      }

  -- The heading and the rows of `render_section`.
  unfoldable pub section :
      Text → Option Text → List (Measurement float.F) → Text × List (Row float.F)
  unfolding heading fastest_of row escape
  section group parameter measurements = (
    escape (heading group parameter),
    map (row (fastest_of float.zero measurements)) measurements,
  )
