-- ===== src/Examples/Normalization.antt =====
-- A field of two connectors, resolved by values of Python that read digits only.
use predictive_analysis.Common.{
  ℕ, Bool, true, false, ◌&&◌, ◌||◌, none, some, List, [], ◌∷◌, ◌≡◌, ◌↔◌, ◌⊎◌, contains, All, ◌==◌,
}
use predictive_analysis.Common.Text.{codes}
use predictive_analysis.Common.Codes.{Text, text_eq, read_number}
use predictive_analysis.Common.Integers.{ℤ, integer_eq}
use predictive_analysis.Validation.Fields.{CanonicalDataType}
use predictive_analysis.Validation.Classifier.{classify_field}
use predictive_analysis.Validation.Dictionary.{FieldSpec, DictionaryRegistry, empty_registry}
use predictive_analysis.Normalization.Coercion.{PythonValues}
use predictive_analysis.Normalization.Resolver.{RawRow, Value, raw_vals, resolve_scalar_field}
use predictive_analysis.Normalization.Resolver.Agreement.{Disagree, resolve_scalar_field-conflict}
use predictive_analysis.Normalization.Frame.{resolve_frame}
use predictive_analysis.Normalization.Frame.Conflicts.{IsReal, resolve_frame-IsReal}

abbrev digit_values : PythonValues
digit_values = record {
  Float = ℕ;
  Datetime = ℕ;
  parse_float = λ s. some (read_number s);
  to_integer = λ n. some (ℤ.pos n);
  near = λ n c. ℤ.pos n == c;
  parse_datetime = λ fmt s. none;
  parse_iso = λ s. none;
}

abbrev gun_temp : FieldSpec
gun_temp = record (classify_field (codes "Gun Temp") 1 (codes "gun_temp_dc_positive") none) {
  data_type = CanonicalDataType.float;
  origin = codes "connector.yaml";
}

abbrev row : Text → RawRow
row value = (codes "Connector No", some (codes "1")) ∷ ((codes "Gun Temp", some value) ∷ [])

abbrev row_null : RawRow
row_null = (codes "Gun Temp", none) ∷ []

abbrev two_rows : List RawRow
two_rows = row (codes "41") ∷ (row_null ∷ (row (codes " 999 ") ∷ []))

abbrev more_rows : List RawRow
more_rows = row (codes "999") ∷ (row (codes "41") ∷ (row (codes "999") ∷ []))

resolve_scalar_field-conflict_example :
    let r = resolve_scalar_field digit_values 7 (codes "Gun Temp") gun_temp two_rows in
    ((r.has_conflict ≡ true) ↔ Disagree (raw_vals (codes "Gun Temp") gun_temp two_rows))
    × ((s : Text)
        → contains r.conflict_values s
          ≡ (r.has_conflict && contains (raw_vals (codes "Gun Temp") gun_temp two_rows) s))
    × (((r.has_conflict || r.masked_sentinel) ≡ false) ⊎ (r.normalized_value ≡ Value.null))
resolve_scalar_field-conflict_example =
    resolve_scalar_field-conflict digit_values 7 (codes "Gun Temp") gun_temp two_rows

abbrev any_pattern : Text → Text → Bool
any_pattern pattern name = true

abbrev one_field : DictionaryRegistry
one_field = record (empty_registry []) { by_name = (codes "Gun Temp", gun_temp) ∷ [] }

resolve_frame-IsReal_example :
    All IsReal
      (resolve_frame digit_values any_pattern one_field two_rows (codes "Gun Temp" ∷ [])).conflicts
resolve_frame-IsReal_example =
    resolve_frame-IsReal digit_values any_pattern one_field two_rows (codes "Gun Temp" ∷ [])
