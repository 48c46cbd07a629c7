-- ===== src/Examples/Validation.antt =====
-- A small dictionary, and a header compared with a schema.
use predictive_analysis.Common.{
  ◌+◌, Bool, true, false, none, some, List, [], ◌∷◌, ◌≡◌, ◌↔◌, refl, length, All,
}
use predictive_analysis.Common.Dict.{keys}
use predictive_analysis.Common.Sums.{NoRepeats}
use predictive_analysis.Common.Sorting.{sort_by}
use predictive_analysis.Common.Text.{codes}
use predictive_analysis.Common.Decimal.{decimal}
use predictive_analysis.Common.Codes.{Text, text_eq}
use predictive_analysis.Validation.Compatibility.{
  is_compatible, FieldIdentity, identity_eq, RegisteredField, compare_schema, incoming_index,
  registered_index,
}
use predictive_analysis.Validation.Compatibility.Verdict.{compare_schema-is_compatible, IsKept}
use predictive_analysis.Validation.Compatibility.Counts.{compare_schema-accounts_for_fields}
use predictive_analysis.Validation.Fields.{ReviewStatus}
use predictive_analysis.Validation.Dictionary.{
  FieldSpec, DictionaryRegistry, Loaded, load, register_all, register, validate, canonical_names_of,
  all_specs,
}
use predictive_analysis.Validation.Dictionary.Entries.{load-IsEntry, IsEntry}
use predictive_analysis.Validation.Classifier.{classify_field}
use predictive_analysis.Validation.Resolution.{resolve_all}
use predictive_analysis.Validation.Coverage.{
  build_coverage_report, coverage_status, SchemaCoverageStatus,
}
use predictive_analysis.Validation.Coverage.Totals.{coverage-accounts_for_positions, total_reviews}
use predictive_analysis.Examples.Header.{plain_hash, stop_row, parsed_stops, stops_parse}

abbrev known_fields : List RegisteredField
known_fields =
    record {
      source_name = codes "Stop Reason";
      source_occurrence = 2;
      source_position = 3;
      required = true;
      data_type = none;
    }
    ∷ (record {
      source_name = codes "Site";
      source_occurrence = 1;
      source_position = 9;
      required = false;
      data_type = none;
    }
        ∷ [])

abbrev cabinet : RegisteredField
cabinet = record {
  source_name = codes "Cabinet Temp";
  source_occurrence = 1;
  source_position = 0;
  required = true;
  data_type = none;
}

-- The optional field that the header lacks does not matter.
stops_compatible :
    is_compatible (compare_schema parsed_stops (cabinet ∷ known_fields) none none).compatibility
    ≡ true
unfolding compare_schema is_compatible parsed_stops decimal sort_by
stops_compatible = refl

compare_schema-is_compatible_example :
    (is_compatible (compare_schema parsed_stops (cabinet ∷ known_fields) none none).compatibility
      ≡ true)
    ↔ ((k : FieldIdentity) → IsKept parsed_stops (cabinet ∷ known_fields) none k)
compare_schema-is_compatible_example =
    compare_schema-is_compatible parsed_stops cabinet known_fields none none refl

compare_schema-accounts_for_fields_example :
    ((compare_schema parsed_stops (cabinet ∷ known_fields) none none).matched_count
        + length (compare_schema parsed_stops (cabinet ∷ known_fields) none none).additional
      ≡ length (keys (incoming_index parsed_stops.fields)))
    × ((compare_schema parsed_stops (cabinet ∷ known_fields) none none).matched_count
          + length (compare_schema parsed_stops (cabinet ∷ known_fields) none none).missing_required
          + length (compare_schema parsed_stops (cabinet ∷ known_fields) none none).missing_optional
        ≡ length (keys (registered_index (cabinet ∷ known_fields))))
compare_schema-accounts_for_fields_example =
    compare_schema-accounts_for_fields parsed_stops cabinet known_fields none none refl

abbrev celsius : List Text
celsius = codes "°C" ∷ []

temperature_unit :
    (classify_field
      (codes "Cabinet Temperature")
      1
      (codes "cabinet_temperature")
      (some celsius)).unit
    ≡ some (codes "°C")
unfolding classify_field
temperature_unit = refl

abbrev reason_spec : FieldSpec
reason_spec = record (classify_field (codes "Stop Reason") 1 (codes "stop_reason") none) {
  source_occurrence = none;
  review_status = ReviewStatus.verified;
}

abbrev temp_spec : FieldSpec
temp_spec = record reason_spec {
  source_name = codes "Cabinet Temp";
  source_occurrence = some 1;
  canonical_name = codes "cabinet_temp";
}

abbrev small_registry : DictionaryRegistry
small_registry = record {
  units = celsius;
  by_identity = ((codes "Cabinet Temp", 1), temp_spec) ∷ [];
  by_name = (codes "Stop Reason", reason_spec) ∷ [];
  by_name_normalized = (codes "stopreason", reason_spec) ∷ ((codes "cabinettemp", temp_spec) ∷ []);
  patterns = [];
}

small_loads : load celsius (reason_spec ∷ (temp_spec ∷ [])) [] ≡ Loaded.loaded small_registry
unfolding load register_all register validate classify_field
small_loads = refl

load-IsEntry_example :
    All (IsEntry small_registry) (reason_spec ∷ (temp_spec ∷ []))
    × NoRepeats (canonical_names_of (all_specs small_registry))
load-IsEntry_example =
    load-IsEntry celsius (reason_spec ∷ (temp_spec ∷ [])) [] small_registry small_loads

-- Patterns that match no name.
abbrev no_match : Text → Text → Bool
no_match pattern name = false

coverage-accounts_for_positions_example :
    let resolved = resolve_all no_match small_registry parsed_stops.fields in
    let report = build_coverage_report parsed_stops resolved in
    (report.mapped + report.unmapped ≡ report.source_positions)
    × (total_reviews report.reviews ≡ report.source_positions)
    × ((coverage_status report ≡ SchemaCoverageStatus.complete)
        ↔ All (λ f. f.is_dictionary_mapped ≡ true) resolved)
coverage-accounts_for_positions_example =
    coverage-accounts_for_positions plain_hash no_match small_registry stop_row parsed_stops
      stops_parse
