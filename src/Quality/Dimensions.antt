-- ===== src/Quality/Dimensions.antt =====
-- pipelines/quality/scoring.py: the five dimensions of a quality score. A score is an exact quotient,
-- in percent, where the source has a float; the factor of a gap is in thousandths and above zero, since
-- with zero the source raises a division error. The explanations are left out. Scoring holds `_clamp` and
-- the weighted mean.
pub mod Bounds
use predictive_analysis.Common.{
  ℕ, ◌+◌, ◌-◌, ◌*◌, ◌/◌, min, max, Bool, true, false, not, ◌&&◌, Option, none, some, List, [], ◌∷◌,
  if◌then◌else◌, ltb, length, select, any,
}
use predictive_analysis.Quality.Scoring.{Dimensions, Scores, Mean, clamp, overall_quality}
use predictive_analysis.Common.Integers.{ℤ, minus, scale}
use predictive_analysis.Quality.Kinds.{QualityIssueType, QualitySeverity, VariabilityClass}
use predictive_analysis.Quality.Findings.{QualityFinding, FieldProfile, QualityContext}

-- `numerator / denominator`, which can be below zero before it is clamped.
pub record Score : Type 0 where
  pub numerator : ℤ
  pub denominator : ℕ

-- A quotient that is not negative.
pub record Quotient : Type 0 where
  pub numerator : ℕ
  pub denominator : ℕ

-- `_clamp(100.0 * full - lost)`, over a denominator.
abbrev pub clamped : ℕ → ℤ → Score
clamped denominator value = record {
  numerator = clamp value (ℤ.pos 0) (ℤ.pos (100 * denominator));
  denominator = denominator;
}

-- A severe finding about a required field.
abbrev is_missing_required : QualityIssueType → QualitySeverity → Bool
is_missing_required QualityIssueType.missing_required_field QualitySeverity.critical = true
is_missing_required code severity = false

-- `_VALIDITY_RULES`
abbrev pub is_validity_rule : QualityIssueType → Bool
is_validity_rule QualityIssueType.sentinel_value = true
is_validity_rule QualityIssueType.out_of_range = true
is_validity_rule QualityIssueType.invalid_type = true
is_validity_rule QualityIssueType.unknown_enum_value = true
is_validity_rule code = false

abbrev pub has_missing_required : List QualityFinding → Bool
has_missing_required findings = any (λ f. is_missing_required f.rule_code f.severity) findings

-- The fields that the schema lacks, and those that it has and the file lacks.
abbrev pub drift_of : QualityContext → ℕ
drift_of context = length context.missing_schema_fields + length context.additional_schema_fields

abbrev pub hundred : Score
hundred = record { numerator = ℤ.pos 100; denominator = 1 }

-- The penalties that do not depend on the number of fields.
abbrev pub fixed_penalties : QualityContext → List QualityFinding → ℕ
fixed_penalties context findings =
    (if has_missing_required findings then 30 else 0)
    + min 10 (length context.profile.header.duplicate_names * 2)
    + (if context.schema_is_known then 0 else 10)

-- `_schema_dimension`
unfoldable pub schema_dimension : QualityContext → List QualityFinding → Score
unfolding clamp
schema_dimension context findings =
    let field_count = max context.profile.header.field_count 1 in
    clamped field_count (
      minus (100 * field_count) (
        fixed_penalties context findings * field_count
        + min (40 * field_count) (100 * drift_of context)))

abbrev pub is_considered : VariabilityClass → Bool
is_considered VariabilityClass.all_null_in_sample = false
is_considered v = true

abbrev pub considered_fields : QualityContext → List FieldProfile
considered_fields context =
    select (λ (f : FieldProfile). is_considered f.variability) context.profile.fields

abbrev pub null_cells : List FieldProfile → ℕ
null_cells [] = 0
null_cells (f ∷ fields) = f.null_count + null_cells fields

-- `_clamp(100.0 * (whole - lost) / whole)`, where nothing to assess counts as full.
unfoldable pub rest_or_full : ℕ → ℕ → Score
unfolding clamp
rest_or_full whole lost =
    if ltb 0 whole then clamped whole (minus (100 * whole) (100 * lost)) else hundred

-- `_completeness_dimension`
unfoldable pub completeness_dimension : QualityContext → Score
unfolding rest_or_full
completeness_dimension context =
    rest_or_full (context.profile.row_count * length (considered_fields context))
      (null_cells (considered_fields context))

abbrev pub violations_of : List QualityFinding → ℕ
violations_of [] = 0
violations_of (f ∷ findings) =
    (if is_validity_rule f.rule_code then f.occurrence_count else 0) + violations_of findings

-- `_validity_dimension`; a sum of cells below zero counts as none.
unfoldable pub validity_dimension : QualityContext → List QualityFinding → Score
unfolding rest_or_full
validity_dimension context findings =
    rest_or_full
      (context.profile.row_count * length context.profile.fields
        - null_cells context.profile.fields)
      (violations_of findings)

-- `_duplicate_dimension`
unfoldable pub duplicate_dimension : QualityContext → Score
unfolding clamp
duplicate_dimension context =
    let row_count = max context.profile.row_count 1 in
    let groups = max context.profile.duplicates.logical_key_groups 1 in
    clamped (row_count * groups) (
      minus (100 * (row_count * groups)) (
        100 * (context.profile.duplicates.exact_duplicate_rows * groups)
        + 100 * (context.profile.duplicates.conflicting_logical_groups * row_count)))

-- `min(_GAP_PENALTY_CAP, 10.0 * (largest / threshold - 1.0))` if the largest interval is above the
-- threshold, of a threshold and an interval in thousandths.
abbrev pub gap_penalty_over : ℕ → ℕ → Quotient
gap_penalty_over threshold largest =
    if ltb threshold largest
    then record {
      numerator = min (30 * threshold) (10 * (largest - threshold));
      denominator = threshold;
    }
    else record { numerator = 0; denominator = 1 }

abbrev pub gap_penalty : Option ℕ → Option ℕ → ℕ → Quotient
gap_penalty (some median) (some largest) factor =
    if ltb 0 median && ltb 0 largest
    then gap_penalty_over (median * factor) (largest * 1000)
    else record { numerator = 0; denominator = 1 }
gap_penalty median largest factor = record { numerator = 0; denominator = 1 }

-- `parse_score`
abbrev pub parse_score : ℕ → ℕ → Quotient
parse_score parsed considered =
    if ltb 0 considered
    then record { numerator = 100 * parsed; denominator = considered }
    else record { numerator = 100; denominator = 1 }

-- `_clamp(parse_score - gap_penalty)`
abbrev pub penalized : Quotient → Quotient → Score
penalized score penalty =
    clamped (score.denominator * penalty.denominator)
      (minus (score.numerator * penalty.denominator) (penalty.numerator * score.denominator))

-- `_timestamp_dimension`
unfoldable pub timestamp_dimension : QualityContext → Score
unfolding clamp
timestamp_dimension context =
    let analysis = context.profile.timestamps in
    penalized (parse_score analysis.parsed_count (analysis.total_values - analysis.null_count)) (
      gap_penalty analysis.median_interval_seconds analysis.max_interval_seconds
        context.telemetry_gap_factor)

pub record QualityScore : Type 0 where
  pub schema_quality : Score
  pub completeness_quality : Score
  pub validity_quality : Score
  pub duplicate_quality : Score
  pub timestamp_quality : Score
  pub overall : Score

-- A score as a whole number of parts of its percent.
abbrev in_parts : ℕ → Score → ℤ
in_parts parts s = scale (parts / s.denominator) s.numerator

-- The weighted mean, in parts of a percent, of scores that are brought to a common denominator, so that
-- equal scores are equal keys.
abbrev pub overall_of : ℕ → Score → Score → Score → Score → Score → Dimensions → Score
overall_of parts schema completeness validity duplicates timestamps weights =
    let mean =
      overall_quality (100 * parts)
        (record {
          schema_quality = in_parts parts schema;
          completeness_quality = in_parts parts completeness;
          validity_quality = in_parts parts validity;
          duplicate_quality = in_parts parts duplicates;
          timestamp_quality = in_parts parts timestamps;
        })
        weights in
    record { numerator = mean.numerator; denominator = mean.denominator * parts }

-- `compute_quality_score`; the source rounds every score to two places.
unfoldable pub compute_quality_score :
    QualityContext → List QualityFinding → Dimensions → QualityScore
unfolding schema_dimension completeness_dimension validity_dimension duplicate_dimension
    timestamp_dimension overall_quality
compute_quality_score context findings weights =
    let schema = schema_dimension context findings in
    let completeness = completeness_dimension context in
    let validity = validity_dimension context findings in
    let duplicates = duplicate_dimension context in
    let timestamps = timestamp_dimension context in
    let parts =
      schema.denominator
      * (completeness.denominator
          * (validity.denominator * (duplicates.denominator * timestamps.denominator))) in
    record {
      schema_quality = schema;
      completeness_quality = completeness;
      validity_quality = validity;
      duplicate_quality = duplicates;
      timestamp_quality = timestamps;
      overall = overall_of parts schema completeness validity duplicates timestamps weights;
    }
