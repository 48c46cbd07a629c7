-- ===== src/Quality/Rules.antt =====
-- pipelines/quality/rules.py: the rules of a file. A Decimal is a number of millionths, and reading one
-- is a parameter.
pub mod Collisions
use predictive_analysis.Common.{
  ℕ, zero, suc, ◌+◌, ◌*◌, ◌-◌, Bool, true, false, not, ◌&&◌, ◌||◌, Option, none, some, List, [],
  ◌∷◌, ◌++◌, if◌then◌else◌, ◌==◌, ltb, leb, eqb, length, select, contains, any, map,
}
use predictive_analysis.Common.Dict.{Dict, get, keys, values}
use predictive_analysis.Common.Codes.{Text, text_eq, codes_le}
use predictive_analysis.Common.Integers.{ℤ}
use predictive_analysis.Common.Sorting.{sort_by}
use predictive_analysis.Validation.Fields.{FieldEntity, CanonicalDataType, RangeStatus}
use predictive_analysis.Validation.Dictionary.{FieldSpec, ResolvedField, all_specs}
use predictive_analysis.Quality.Kinds.{
  QualityIssueType, QualityRuleScope, QualitySeverity, VariabilityClass,
}
use predictive_analysis.Quality.Findings.{
  QualityFinding, FieldProfile, QualityContext, is_numeric, is_within_tolerance, pairs,
  evaluate_rules,
}

-- A finding without a field.
abbrev pub finding : QualityIssueType → QualityRuleScope → QualitySeverity → ℕ → QualityFinding
finding code scope severity count = record {
  rule_code = code;
  scope = scope;
  severity = severity;
  field_name = none;
  field_occurrence = none;
  canonical_name = none;
  entity = none;
  raw_value = none;
  occurrence_count = count;
}

-- A finding about a field by its definition.
abbrev pub field_finding :
    QualityIssueType → QualitySeverity → FieldSpec → Option Text → ℕ → QualityFinding
field_finding code severity spec raw count = record {
  rule_code = code;
  scope = QualityRuleScope.field;
  severity = severity;
  field_name = some spec.source_name;
  field_occurrence = spec.source_occurrence;
  canonical_name = some spec.canonical_name;
  entity = some spec.entity;
  raw_value = raw;
  occurrence_count = count;
}

abbrev pub each_of : {A : Type 0} → (A → List QualityFinding) → List A → List QualityFinding
each_of f [] = []
each_of f (x ∷ xs) = f x ++ each_of f xs

abbrev if_any : {A : Type 0} → List A → QualityFinding → List QualityFinding
if_any [] f = []
if_any (_ ∷ _) f = f ∷ []

abbrev name_le : Text × ℕ → Text × ℕ → Bool
name_le a b = codes_le a.0 b.0

-- DuplicateHeaderRule
unfoldable pub duplicate_header : QualityContext → List QualityFinding
duplicate_header context =
    each_of
      (λ (p : Text × ℕ).
        record (finding QualityIssueType.duplicate_header QualityRuleScope.file
          QualitySeverity.warning p.1) { field_name = some p.0 }
        ∷ [])
      (sort_by name_le context.profile.header.duplicate_names)

abbrev spec_le : FieldSpec → FieldSpec → Bool
spec_le a b = codes_le a.source_name b.source_name

abbrev missing_role : Text → List QualityFinding
missing_role role =
    finding QualityIssueType.missing_required_field QualityRuleScope.file QualitySeverity.critical 1
    ∷ []

-- MissingRequiredFieldRule
unfoldable pub missing_required_field : QualityContext → List QualityFinding
missing_required_field context =
    let present = map (λ f. f.source_name) context.profile.header.fields in
    let required = select (λ (s : FieldSpec). s.required) (all_specs context.registry) in
    each_of
      (λ (s : FieldSpec).
        if contains present s.source_name
        then []
        else record (finding QualityIssueType.missing_required_field QualityRuleScope.file
            QualitySeverity.critical 1) {
              field_name = some s.source_name;
              canonical_name = some s.canonical_name;
              entity = some s.entity;
            }
          ∷ [])
      (sort_by spec_le required)
    ++ each_of missing_role context.profile.missing_roles

-- UnknownFieldRule
unfoldable pub unknown_field : QualityContext → List QualityFinding
unknown_field context =
    let unmapped =
      select (λ (r : ResolvedField). not r.is_dictionary_mapped) context.resolved_fields in
    if_any unmapped (
      finding QualityIssueType.unknown_field QualityRuleScope.field QualitySeverity.info
        (length unmapped))

-- SchemaDriftRule
unfoldable pub schema_drift : QualityContext → List QualityFinding
schema_drift context =
    if_any context.missing_schema_fields (
      finding QualityIssueType.missing_field QualityRuleScope.file QualitySeverity.warning
        (length context.missing_schema_fields))
    ++ if_any context.additional_schema_fields (
        finding QualityIssueType.schema_mismatch QualityRuleScope.file QualitySeverity.warning
          (length context.additional_schema_fields))

-- InvalidTimestampRule
unfoldable pub invalid_timestamp : QualityContext → List QualityFinding
invalid_timestamp context =
    let analysis = context.profile.timestamps in
    let severity =
      if is_within_tolerance analysis context.timestamp_failure_tolerance
      then QualitySeverity.warning
      else QualitySeverity.critical in
    if ltb 0 analysis.failed_count
    then record (finding QualityIssueType.invalid_timestamp QualityRuleScope.timestamp severity
        analysis.failed_count) { field_name = analysis.column }
      ∷ []
    else []

-- Whether the largest interval is above the median by the factor, in thousandths; the intervals may be
-- missing or zero.
abbrev pub is_gap : Option ℕ → Option ℕ → ℕ → Bool
is_gap (some median) (some largest) factor = ltb 0 median && ltb (median * factor) (largest * 1000)
is_gap (some median) none factor = false
is_gap none largest factor = false

-- TelemetryGapRule
unfoldable pub telemetry_gap : QualityContext → List QualityFinding
telemetry_gap context =
    let analysis = context.profile.timestamps in
    if is_gap analysis.median_interval_seconds analysis.max_interval_seconds
      context.telemetry_gap_factor
    then record (finding QualityIssueType.telemetry_gap QualityRuleScope.timestamp
        QualitySeverity.warning 1) { field_name = analysis.column }
      ∷ []
    else []

abbrev dates_differ : Option ℕ → Option ℕ → Bool
dates_differ (some a) (some b) = not (eqb a b)
dates_differ (some a) none = false
dates_differ none b = false

-- EventDateFilenameMismatchRule
unfoldable pub event_date_filename_mismatch : QualityContext → List QualityFinding
event_date_filename_mismatch context =
    if dates_differ context.filename_date context.profile.timestamps.dominant_business_date
    then finding QualityIssueType.event_date_filename_mismatch QualityRuleScope.file
        QualitySeverity.info 1
      ∷ []
    else []

-- ExactDuplicateRule
unfoldable pub exact_duplicate : QualityContext → List QualityFinding
exact_duplicate context =
    let rows = context.profile.duplicates.exact_duplicate_rows in
    if ltb 0 rows
    then finding QualityIssueType.exact_duplicate QualityRuleScope.row QualitySeverity.warning rows
      ∷ []
    else []

-- LogicalKeyCollisionRule
unfoldable pub logical_key_collision : QualityContext → List QualityFinding
logical_key_collision context =
    let duplicates = context.profile.duplicates in
    let severity =
      if ltb 0 duplicates.conflicting_logical_groups
      then QualitySeverity.error
      else QualitySeverity.warning in
    if ltb 0 duplicates.logical_collision_groups
    then finding QualityIssueType.logical_key_collision QualityRuleScope.entity severity
        duplicates.logical_collision_groups
      ∷ []
    else []

abbrev cardinality : QualityIssueType → Option ℕ → ℕ → List QualityFinding
cardinality code none observed = []
cardinality code (some expected) zero = []
cardinality code (some expected) (suc n) =
    if eqb (suc n) expected
    then []
    else finding code QualityRuleScope.file QualitySeverity.warning
        ((expected - suc n) + (suc n - expected))
      ∷ []

-- _CardinalityRule, of the connectors and of the SMRs.
unfoldable pub connector_cardinality : QualityContext → List QualityFinding
connector_cardinality context =
    cardinality QualityIssueType.unexpected_connector_cardinality context.expected_connector_count
      (length context.profile.connectors)

unfoldable pub smr_cardinality : QualityContext → List QualityFinding
smr_cardinality context =
    cardinality QualityIssueType.unexpected_smr_cardinality context.expected_smr_count
      (length context.profile.smrs)

abbrev is_all_null : VariabilityClass → Bool
is_all_null VariabilityClass.all_null_in_sample = true
is_all_null VariabilityClass.constant_in_sample = false
is_all_null VariabilityClass.variable_in_sample = false

-- AllNullFieldRule
unfoldable pub all_null_field : QualityContext → List QualityFinding
all_null_field context =
    let empty = select (λ (f : FieldProfile). is_all_null f.variability) context.profile.fields in
    if_any empty (
      finding QualityIssueType.all_null_field QualityRuleScope.field QualitySeverity.info
        (length empty))

abbrev sentinel_names : FieldSpec → List Text
sentinel_names spec = map (λ (p : Text × Option Text). p.0) spec.sentinel_values

-- The hits of declared sentinels in one field.
unfoldable pub sentinel_hits_of : FieldSpec → Dict Text ℕ → List QualityFinding
sentinel_hits_of spec [] = []
sentinel_hits_of spec ((value, count) ∷ hits) =
    let rest = sentinel_hits_of spec hits in
    if contains (sentinel_names spec) value && ltb 0 count
    then field_finding QualityIssueType.sentinel_value QualitySeverity.warning spec (some value)
        count
      ∷ rest
    else rest

-- SentinelValueRule
unfoldable pub sentinel_value : QualityContext → List QualityFinding
unfolding sentinel_hits_of
sentinel_value context =
    each_of (λ (p : FieldSpec × FieldProfile). sentinel_hits_of p.0 p.1.sentinel_hits)
      (pairs context)

-- The order of integers.
abbrev pub below : ℤ → ℤ → Bool
below (ℤ.pos n) (ℤ.pos m) = ltb n m
below (ℤ.pos n) (ℤ.negsuc m) = false
below (ℤ.negsuc n) (ℤ.pos m) = true
below (ℤ.negsuc n) (ℤ.negsuc m) = ltb m n

abbrev is_some_bound : Option ℤ → Bool
is_some_bound none = false
is_some_bound (some b) = true

abbrev is_verified : RangeStatus → Bool
is_verified RangeStatus.verified = true
is_verified _ = false

-- `FieldSpec.has_verified_range`
abbrev pub has_verified_range : FieldSpec → Bool
has_verified_range spec =
    is_verified spec.range_status && (is_some_bound spec.valid_min || is_some_bound spec.valid_max)

-- `invalid` values of a numeric type.
abbrev pub is_numeric_type : CanonicalDataType → Bool
is_numeric_type CanonicalDataType.integer = true
is_numeric_type CanonicalDataType.float = true
is_numeric_type _ = false

abbrev count_or_zero : Option ℕ → ℕ
count_or_zero none = 0
count_or_zero (some n) = n

abbrev invalid_values : ℕ → FieldSpec × FieldProfile → List QualityFinding
invalid_values row_count p =
    let invalid = (row_count - p.1.null_count) - count_or_zero p.1.numeric_valid_count in
    if is_numeric_type p.0.data_type && ltb 0 invalid
    then field_finding QualityIssueType.invalid_type QualitySeverity.error p.0 none invalid ∷ []
    else []

-- InvalidTypeRule
unfoldable pub invalid_type : QualityContext → List QualityFinding
invalid_type context = each_of (invalid_values context.profile.row_count) (pairs context)

abbrev unexpected_finding : FieldSpec → List Text → List QualityFinding
unexpected_finding spec [] = []
unexpected_finding spec (v ∷ more) =
    field_finding QualityIssueType.unknown_enum_value QualitySeverity.warning spec (some v)
      (length (v ∷ more))
    ∷ []

abbrev unexpected_values : FieldSpec → Option (List Text) → List QualityFinding
unexpected_values spec none = []
unexpected_values spec (some observed) =
    unexpected_finding spec (select (λ v. not (contains spec.allowed_values v)) observed)

abbrev has_values : List Text → Bool
has_values [] = false
has_values (_ ∷ _) = true

-- UnknownEnumValueRule
unfoldable pub unknown_enum_value : QualityContext → List QualityFinding
unknown_enum_value context =
    each_of
      (λ (p : FieldSpec × FieldProfile).
        if p.0.allowed_values_authoritative && has_values p.0.allowed_values
        then unexpected_values p.0 p.1.observed_values
        else [])
      (pairs context)

module _ (decimal_of : Text → Option ℤ) where
  -- Whether a value that reads as a number breaks its bound.
  abbrev breaks : (ℤ → ℤ → Bool) → Option ℤ → Option ℤ → Bool
  breaks wrong (some bound) (some actual) = wrong actual bound
  breaks wrong (some bound) none = false
  breaks wrong none actual = false

  abbrev bound_finding : FieldSpec → (ℤ → ℤ → Bool) → Option ℤ → Option Text → List QualityFinding
  bound_finding spec wrong bound none = []
  bound_finding spec wrong bound (some actual) =
      if not (contains (sentinel_names spec) actual) && breaks wrong bound (decimal_of actual)
      then field_finding QualityIssueType.out_of_range QualitySeverity.error spec (some actual) 1
        ∷ []
      else []

  -- The bounds of one field.
  unfoldable pub range_findings : FieldSpec × FieldProfile → List QualityFinding
  range_findings p =
      if has_verified_range p.0 && is_numeric p.1
      then bound_finding p.0 below p.0.valid_min p.1.min_value
        ++ bound_finding p.0 (λ a b. below b a) p.0.valid_max p.1.max_value
      else []

  -- OutOfRangeRule
  unfoldable pub out_of_range : QualityContext → List QualityFinding
  unfolding range_findings
  out_of_range context = each_of range_findings (pairs context)

  -- `build_default_registry`
  unfoldable pub default_rules : List (QualityContext → List QualityFinding)
  default_rules =
      duplicate_header
      ∷ (missing_required_field
          ∷ (unknown_field
              ∷ (schema_drift
                  ∷ (invalid_timestamp
                      ∷ (telemetry_gap
                          ∷ (event_date_filename_mismatch
                              ∷ (exact_duplicate
                                  ∷ (logical_key_collision
                                      ∷ (connector_cardinality
                                          ∷ (smr_cardinality
                                              ∷ (all_null_field
                                                  ∷ (sentinel_value
                                                      ∷ (out_of_range
                                                          ∷ (invalid_type
                                                            ∷ (unknown_enum_value
                                                            ∷ [])))))))))))))))
