-- ===== src/Quality/Dimensions/Bounds.antt =====
-- The range of the dimensions, and what full marks mean.
use predictive_analysis.Common.{
  ℕ, zero, suc, ◌+◌, ◌-◌, ◌*◌, ◌<◌, min, max, Bool, true, false, ◌&&◌, Option, none, some, List,
  if◌then◌else◌, ltb, length, ◌≡◌, ◌↔◌, refl, sym, arith, Bool-cases, inl, inr,
}
use predictive_analysis.Common.Dict.{Dict}
use predictive_analysis.Quality.Findings.{QualityFinding, QualityContext}
use predictive_analysis.Common.Integers.{ℤ, minus, at_most}
use predictive_analysis.Quality.Dimensions.{
  Score, Quotient, clamped, has_missing_required, drift_of, fixed_penalties, schema_dimension,
  considered_fields, null_cells, rest_or_full, completeness_dimension, violations_of,
  validity_dimension, duplicate_dimension, gap_penalty_over, gap_penalty, parse_score, penalized,
  timestamp_dimension, overall_of, compute_quality_score,
}
use predictive_analysis.Quality.Scoring.{
  Dimensions, clamp-bounds, clamp_full, overall_quality, clamped_mean, total_weight, weighted_sum,
}

-- The score is defined, and between 0 and 100.
abbrev pub InRange : Score → Type 0
InRange s =
    (0 < s.denominator)
    × (at_most (ℤ.pos 0) s.numerator ≡ true)
    × (at_most s.numerator (ℤ.pos (100 * s.denominator)) ≡ true)

-- The score is 100.
abbrev pub IsFull : Score → Type 0
IsFull s = s.numerator ≡ ℤ.pos (100 * s.denominator)

clamped-InRange :
    (denominator : ℕ) (value : ℤ) → 0 < denominator → InRange (clamped denominator value)
clamped-InRange denominator value h =
    let bounds = clamp-bounds value (100 * denominator) in (h, bounds.0, bounds.1)

positive_product : (a b : ℕ) → 0 < a → 0 < b → 0 < a * b
positive_product zero b h k = omega (arith, h)
positive_product (suc a) b h k = omega (arith, k)

rest-InRange : (whole lost : ℕ) → InRange (rest_or_full whole lost)
unfolding rest_or_full
rest-InRange whole lost = elim (Bool-cases (ltb 0 whole)) [
  | inl p ↦ rw p (clamped-InRange whole (minus (100 * whole) (100 * lost)) (ground (arith, p)))
  | inr p ↦ rw p (omega arith, refl, refl)
]

penalty-IsDefined :
    (b : Bool) (threshold largest : ℕ)
    → 0 < threshold
    → 0
      < (if b
          then gap_penalty_over threshold largest
          else record { numerator = 0; denominator = 1 }).denominator
penalty-IsDefined true threshold largest h = ground (arith, h)
penalty-IsDefined false threshold largest h = omega arith

gap_penalty-IsDefined :
    (median largest : Option ℕ) (factor : ℕ)
    → 0 < factor
    → 0 < (gap_penalty median largest factor).denominator
gap_penalty-IsDefined none largest factor h = omega arith
gap_penalty-IsDefined (some median) none factor h = omega arith
gap_penalty-IsDefined (some zero) (some largest) factor h = omega arith
gap_penalty-IsDefined (some (suc median)) (some largest) factor h =
    penalty-IsDefined (ltb 0 (suc median) && ltb 0 largest) (suc median * factor) (largest * 1000)
      (positive_product (suc median) factor (omega arith) h)

parse_score-IsDefined : (parsed considered : ℕ) → 0 < (parse_score parsed considered).denominator
parse_score-IsDefined parsed considered = grind arith

penalized-InRange :
    (score penalty : Quotient)
    → 0 < score.denominator
    → 0 < penalty.denominator
    → InRange (penalized score penalty)
penalized-InRange score penalty h k =
    clamped-InRange (score.denominator * penalty.denominator)
      (minus (score.numerator * penalty.denominator) (penalty.numerator * score.denominator))
      (positive_product score.denominator penalty.denominator h k)

dimensions-InRange :
    (context : QualityContext) (findings : List QualityFinding)
    → 0 < context.telemetry_gap_factor
    → InRange (schema_dimension context findings)
      × InRange (completeness_dimension context)
      × InRange (validity_dimension context findings)
      × InRange (duplicate_dimension context)
      × InRange (timestamp_dimension context)
unfolding schema_dimension completeness_dimension validity_dimension duplicate_dimension
    timestamp_dimension
dimensions-InRange context findings h =
    let profile = context.profile in
    let analysis = profile.timestamps in
    let considered = analysis.total_values - analysis.null_count in
    let count = max profile.header.field_count 1 in
    let rows = max profile.row_count 1 in
    let groups = max profile.duplicates.logical_key_groups 1 in
    (
      clamped-InRange count _ (omega arith),
      rest-InRange (profile.row_count * length (considered_fields context))
          (null_cells (considered_fields context)),
      rest-InRange (profile.row_count * length profile.fields - null_cells profile.fields)
          (violations_of findings),
      clamped-InRange (rows * groups) _ (positive_product rows groups (omega arith) (omega arith)),
      penalized-InRange (parse_score analysis.parsed_count considered)
          (gap_penalty analysis.median_interval_seconds analysis.max_interval_seconds
            context.telemetry_gap_factor)
          (parse_score-IsDefined analysis.parsed_count considered)
          (gap_penalty-IsDefined analysis.median_interval_seconds analysis.max_interval_seconds
            context.telemetry_gap_factor h),
    )

-- A weighted sum, clamped at 100, in parts of a percent.
mean-InRange :
    (parts : ℕ) (d : Dict ℤ ℕ)
    → 0 < parts
    → InRange (record {
      numerator = (clamped_mean (100 * parts) d).numerator;
      denominator = (clamped_mean (100 * parts) d).denominator * parts;
    })
unfolding clamped_mean
mean-InRange parts d h = elim (Bool-cases (ltb 0 (total_weight d))) [
  | inl p ↦
      let some_weight : 0 < total_weight d = ground (arith, p) in
      let whole : 100 * parts * total_weight d ≡ 100 * (total_weight d * parts) = grind arith in
      let bounds = clamp-bounds (weighted_sum d) (100 * parts * total_weight d) in
      rw p
        (positive_product (total_weight d) parts some_weight h, bounds.0, rw (sym whole) bounds.1)
  | inr p ↦ rw p (omega (arith, h), refl, ground arith)
]

overall-InRange :
    (parts : ℕ) (schema completeness validity duplicates timestamps : Score) (weights : Dimensions)
    → 0 < parts
    → InRange (overall_of parts schema completeness validity duplicates timestamps weights)
unfolding overall_quality
overall-InRange parts schema completeness validity duplicates timestamps weights h =
    mean-InRange parts _ h

-- If the gap factor is above zero, each of the five scores and the overall score are defined and lie
-- between 0 and 100, whatever the profile, the findings and the weights are.
pub compute_quality_score-InRange :
    (context : QualityContext) (findings : List QualityFinding) (weights : Dimensions)
    → 0 < context.telemetry_gap_factor
    → InRange (compute_quality_score context findings weights).schema_quality
      × InRange (compute_quality_score context findings weights).completeness_quality
      × InRange (compute_quality_score context findings weights).validity_quality
      × InRange (compute_quality_score context findings weights).duplicate_quality
      × InRange (compute_quality_score context findings weights).timestamp_quality
      × InRange (compute_quality_score context findings weights).overall
unfolding compute_quality_score
compute_quality_score-InRange context findings weights h =
    let all = dimensions-InRange context findings h in
    let parts = positive_product _ _ all.0.0 (
      positive_product _ _ all.1.0
        (positive_product _ _ all.2.0 (positive_product _ _ all.3.0 all.4.0))) in
    (
      all.0,
      all.1,
      all.2,
      all.3,
      all.4,
      overall-InRange _ (schema_dimension context findings) (completeness_dimension context)
          (validity_dimension context findings) (duplicate_dimension context)
          (timestamp_dimension context) weights parts,
    )

no_product : (a b : ℕ) → 0 < b → a * b ≡ 0 → a ≡ 0
no_product zero b h k = refl
no_product (suc a) b h k = omega (arith, h, k)

-- No required field is missing, no name repeats, nothing drifts, and the schema is known.
abbrev pub AgreesWithSchema : QualityContext → List QualityFinding → Type 0
AgreesWithSchema context findings =
    (has_missing_required findings ≡ false)
    × (length context.profile.header.duplicate_names ≡ 0)
    × (drift_of context ≡ 0)
    × (context.schema_is_known ≡ true)

no_penalty :
    (required known : Bool) (names : ℕ)
    → ((if required then 30 else 0) + min 10 (names * 2) + (if known then 0 else 10) ≡ 0)
      ↔ ((required ≡ false) × (names ≡ 0) × (known ≡ true))
no_penalty true known names = ground arith
no_penalty false true names = ground arith
no_penalty false false names = ground arith

full_lem :
    (count fixed drift : ℕ)
    → 0 < count
    → IsFull (clamped count (minus (100 * count) (fixed * count + min (40 * count) (100 * drift))))
      ↔ ((fixed ≡ 0) × (drift ≡ 0))
full_lem count fixed drift h =
    let penalty = fixed * count + min (40 * count) (100 * drift) in
    let full = clamp_full (100 * count) penalty (omega (arith, h)) in
    (
      λ k.
          let free = full.0 k in
          (no_product fixed count h (omega (arith, h, free)), omega (arith, h, free)),
      λ k. full.1 (rw (k.0, k.1) (omega (arith, h))),
    )

-- A file has the full schema score exactly when no finding says that a required field is missing, no
-- name of its header repeats, no field drifts from the registered schema, and the schema is known.
pub schema_dimension-IsFull :
    (context : QualityContext) (findings : List QualityFinding)
    → IsFull (schema_dimension context findings) ↔ AgreesWithSchema context findings
unfolding schema_dimension
schema_dimension-IsFull context findings =
    let count = max context.profile.header.field_count 1 in
    let full = full_lem count (fixed_penalties context findings) (drift_of context) (omega arith) in
    let none_due =
      no_penalty (has_missing_required findings) context.schema_is_known
        (length context.profile.header.duplicate_names) in
    (
      λ k.
          let parts = full.0 k in
          let clean = none_due.0 parts.0 in (clean.0, clean.1, parts.1, clean.2),
      λ k. full.1 (none_due.1 (k.0, k.1, k.3), k.2),
    )
