-- ===== src/Normalization/Resolver.antt =====
-- pipelines/normalization/payload_resolver.py: the fields of one frame, resolved across the raw rows
-- that contribute to it. A row is a dict from a header to a text or a null.
pub mod Agreement
use predictive_analysis.Common.{
  ℕ, ◌+◌, Bool, true, false, ◌&&◌, ◌||◌, Option, none, some, List, [], ◌∷◌, ◌++◌, String, map,
  if◌then◌else◌, ◌==◌, ltb, not,
}
use predictive_analysis.Common.Dict.{Dict, get, get_or, put, append_to}
use predictive_analysis.Common.Text.{codes, one_of}
use predictive_analysis.Common.Codes.{Text, text_eq}
use predictive_analysis.Common.Integers.{ℤ, integer_eq}
use predictive_analysis.Common.Sets.{sorted_set}
use predictive_analysis.Validation.Fields.{CanonicalDataType}
use predictive_analysis.Validation.Dictionary.{FieldSpec, DictionaryRegistry}
use predictive_analysis.Validation.Resolution.{resolve_field}
use predictive_analysis.Normalization.Coercion.{
  PythonValues, strip_text, is_null_text, coerce_boolean, coerce_string, coerce_float,
  coerce_integer, coerce_datetime, is_gun_temp_sentinel, is_rectifier_temp_sentinel,
  is_smr_temp_sentinel,
}

abbrev pub RawRow : Type 0
RawRow = Dict Text (Option Text)

-- `row.get(name)`
abbrev pub cell : RawRow → Text → Option Text
cell row name = get_or name none row

-- `v = r.get(header)`, and if that is `None`, `r.get(canonical_name)`.
abbrev or_cell : Option Text → Option Text → Option Text
or_cell (some v) w = some v
or_cell none w = w

abbrev value_before : Option Text → List Text → List Text
value_before none rest = rest
value_before (some v) rest = let s = strip_text v in if is_null_text s then rest else s ∷ rest

-- `raw_vals`: the values of a field in the rows that are not null.
unfoldable pub raw_vals : Text → FieldSpec → List RawRow → List Text
raw_vals header spec [] = []
raw_vals header spec (row ∷ rows) =
    value_before (or_cell (cell row header) (cell row spec.canonical_name))
      (raw_vals header spec rows)

module _ (P : PythonValues) where
  pub data Value : Type 0 where
    null : Value
    float : P.Float → Value
    integer : ℤ → Value
    boolean : Bool → Value
    datetime : P.Datetime → Value
    text : Text → Value

  pub record FieldResolution : Type 0 where
    pub canonical_name : Text
    pub source_position : ℕ
    pub raw_value : Option Text
    pub normalized_value : Value
    pub transformation_applied : String
    pub masked_sentinel : Bool
    pub has_conflict : Bool
    pub conflict_values : List Text

  abbrev value_of : {A : Type 0} → (A → Value) → Option A → Value
  value_of make none = Value.null
  value_of make (some a) = make a

  -- The result of `_coerce_value`.
  pub record Coerced : Type 0 where
    pub value : Value
    pub masked : Bool
    pub transformation : String

  abbrev coerced : Value → Bool → String → Coerced
  coerced value masked transformation = record {
    value = value;
    masked = masked;
    transformation = transformation;
  }

  -- The sentinels of the fields that have one.
  abbrev pub is_gun_sentinel : Text → P.Float → Bool
  is_gun_sentinel name v =
      one_of name ("gun_temp_dc_positive" ∷ ("gun_temp_dc_negative" ∷ []))
      && is_gun_temp_sentinel P v

  abbrev pub is_rectifier_sentinel : Text → P.Float → Bool
  is_rectifier_sentinel name v =
      one_of name ("rectifier_internal_temp" ∷ ("rect_max_temperature" ∷ []))
      && is_rectifier_temp_sentinel P v

  abbrev smr_temperatures : List String
  smr_temperatures =
      "smr_dc_dc_temperature"
      ∷ ("smr_pfc_temperature"
          ∷ ("smr_rectifierinternal_temp" ∷ ("smrdcdc_temperature" ∷ ("smrpfc_temperature" ∷ []))))

  abbrev pub is_smr_sentinel : Text → P.Float → Bool
  is_smr_sentinel name v = one_of name smr_temperatures && is_smr_temp_sentinel P v

  abbrev pub mask_if : Bool → String → Coerced → Coerced
  mask_if test transformation c = if test then coerced Value.null true transformation else c

  abbrev coerced_float : Text → Option P.Float → Coerced
  coerced_float name none = coerced Value.null false "COERCE_FLOAT"
  coerced_float name (some v) = mask_if (is_gun_sentinel name v) "SENTINEL_GUN_TEMP_DISCONNECTED" (
      mask_if (is_rectifier_sentinel name v) "SENTINEL_RECTIFIER_TEMP_UNINITIALIZED" (
        mask_if (is_smr_sentinel name v) "SENTINEL_SMR_TEMP_UNAVAILABLE"
          (coerced (Value.float v) false "COERCE_FLOAT")))

  abbrev coerce_as : CanonicalDataType → Text → Text → Coerced
  coerce_as CanonicalDataType.float name raw = coerced_float name (coerce_float P raw)
  coerce_as CanonicalDataType.integer name raw =
      coerced (value_of Value.integer (coerce_integer P raw)) false "COERCE_INT"
  coerce_as CanonicalDataType.boolean name raw =
      coerced (value_of Value.boolean (coerce_boolean raw)) false "COERCE_BOOL"
  coerce_as CanonicalDataType.datetime name raw =
      coerced (value_of Value.datetime (coerce_datetime P raw)) false "COERCE_DATETIME"
  coerce_as _ name raw = coerced (value_of Value.text (coerce_string raw)) false "COERCE_STRING"

  -- `_coerce_value`
  unfoldable pub coerce_value : Text → FieldSpec → Coerced
  coerce_value raw spec = coerce_as spec.data_type spec.canonical_name raw

  -- The three cases, on the sorted distinct values.
  unfoldable pub resolution_of : ℕ → FieldSpec → List Text → FieldResolution
  unfolding coerce_value
  resolution_of position spec [] = record {
    canonical_name = spec.canonical_name;
    source_position = position;
    raw_value = none;
    normalized_value = Value.null;
    transformation_applied = "NULL";
    masked_sentinel = false;
    has_conflict = false;
    conflict_values = [];
  }
  resolution_of position spec (raw ∷ []) =
      let c = coerce_value raw spec in
      record {
        canonical_name = spec.canonical_name;
        source_position = position;
        raw_value = some raw;
        normalized_value = c.value;
        transformation_applied = c.transformation;
        masked_sentinel = c.masked;
        has_conflict = false;
        conflict_values = [];
      }
  resolution_of position spec (raw ∷ (other ∷ more)) = record {
    canonical_name = spec.canonical_name;
    source_position = position;
    raw_value = some raw;
    normalized_value = Value.null;
    transformation_applied = "CONFLICT_MASKED";
    masked_sentinel = false;
    has_conflict = true;
    conflict_values = raw ∷ (other ∷ more);
  }

  -- `_resolve_scalar_field`
  unfoldable pub resolve_scalar_field : ℕ → Text → FieldSpec → List RawRow → FieldResolution
  unfolding resolution_of raw_vals
  resolve_scalar_field position header spec rows =
      resolution_of position spec (sorted_set (raw_vals header spec rows))
