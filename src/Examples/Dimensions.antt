-- ===== src/Examples/Dimensions.antt =====
-- The quality score of a small file with a repeated name, a gap and an invalid value.
use predictive_analysis.Common.{ℕ, true, none, some, List, [], ◌∷◌, ◌≡◌, ◌↔◌, refl, arith, nat_eq}
use predictive_analysis.Common.Text.{codes}
use predictive_analysis.Common.Codes.{text_eq}
use predictive_analysis.Quality.Kinds.{
  QualityIssueType, QualityRuleScope, QualitySeverity, VariabilityClass,
}
use predictive_analysis.Quality.Findings.{FieldProfile, QualityContext, QualityFinding}
use predictive_analysis.Quality.Rules.{finding}
use predictive_analysis.Common.Integers.{ℤ}
use predictive_analysis.Quality.Scoring.{clamp}
use predictive_analysis.Quality.Dimensions.{
  compute_quality_score, schema_dimension, completeness_dimension, duplicate_dimension,
  timestamp_dimension, rest_or_full,
}
use predictive_analysis.Quality.Dimensions.Bounds.{
  InRange, IsFull, AgreesWithSchema, compute_quality_score-InRange, schema_dimension-IsFull,
}
use predictive_analysis.Examples.Header.{parsed_stops}
use predictive_analysis.Examples.Scores.{default_weights}

abbrev column : ℕ → VariabilityClass → ℕ → FieldProfile
column position variability nulls = record {
  position = position;
  source_name = codes "Stop Reason";
  null_count = nulls;
  variability = variability;
  min_value = none;
  max_value = none;
  numeric_valid_count = none;
  observed_values = none;
  sentinel_hits = [];
}

abbrev pub small_context : QualityContext
small_context = record {
  profile = record {
    row_count = 10;
    header = parsed_stops;
    missing_roles = [];
    timestamps = record {
      total_values = 10;
      null_count = 0;
      parsed_count = 9;
      failed_count = 1;
      column = none;
      median_interval_seconds = some 2;
      max_interval_seconds = some 20;
      dominant_business_date = none;
    };
    duplicates = record {
      exact_duplicate_rows = 1;
      logical_key_groups = 5;
      logical_collision_groups = 1;
      conflicting_logical_groups = 1;
    };
    fields =
        column 0 VariabilityClass.variable_in_sample 2
        ∷ (column 1 VariabilityClass.all_null_in_sample 10 ∷ []);
    connectors = [];
    smrs = [];
  };
  resolved_fields = [];
  registry = record {
    units = [];
    by_identity = [];
    by_name = [];
    by_name_normalized = [];
    patterns = [];
  };
  filename_date = none;
  expected_connector_count = none;
  expected_smr_count = none;
  telemetry_gap_factor = 5000;
  timestamp_failure_tolerance = 10;
  missing_schema_fields = [];
  additional_schema_fields = [];
  schema_is_known = true;
}

abbrev one_violation : List QualityFinding
one_violation =
    finding QualityIssueType.invalid_type QualityRuleScope.file QualitySeverity.warning 2 ∷ []

-- Two of the ten values of the only field that is not empty are missing.
completeness_80 :
    (compute_quality_score small_context one_violation default_weights).completeness_quality
    ≡ record { numerator = ℤ.pos 800; denominator = 10 }
unfolding compute_quality_score completeness_dimension rest_or_full clamp
completeness_80 = refl

-- 90 percent are parsed; the gap is twice the threshold and costs ten.
timestamps_80 :
    (compute_quality_score small_context one_violation default_weights).timestamp_quality
    ≡ record { numerator = ℤ.pos 8000000; denominator = 100000 }
unfolding compute_quality_score timestamp_dimension clamp
timestamps_80 = refl

-- An empty file all of whose key groups are in conflict, with copies: the duplicate score is clamped.
abbrev copied_context : QualityContext
copied_context = record small_context {
  profile = record (small_context.profile) {
    row_count = 0;
    duplicates = record {
      exact_duplicate_rows = 1;
      logical_key_groups = 1;
      logical_collision_groups = 1;
      conflicting_logical_groups = 1;
    };
  };
}

copied_is_clamped : (duplicate_dimension copied_context).numerator ≡ ℤ.pos 0
unfolding duplicate_dimension clamp
copied_is_clamped = refl

compute_quality_score-InRange_example :
    InRange (compute_quality_score small_context one_violation default_weights).schema_quality
    × InRange
        (compute_quality_score small_context one_violation default_weights).completeness_quality
    × InRange (compute_quality_score small_context one_violation default_weights).validity_quality
    × InRange (compute_quality_score small_context one_violation default_weights).duplicate_quality
    × InRange (compute_quality_score small_context one_violation default_weights).timestamp_quality
    × InRange (compute_quality_score small_context one_violation default_weights).overall
compute_quality_score-InRange_example =
    compute_quality_score-InRange small_context one_violation default_weights (omega arith)

schema_dimension-IsFull_example :
    IsFull (schema_dimension small_context one_violation)
    ↔ AgreesWithSchema small_context one_violation
schema_dimension-IsFull_example = schema_dimension-IsFull small_context one_violation
