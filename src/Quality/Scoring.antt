-- ===== src/Quality/Scoring.antt =====
-- pipelines/quality/scoring.py: `_clamp` and the weighted mean of `compute_quality_score`. A score is
-- an integer and a weight a whole number of a small unit, where the source has floats; Dimensions
-- computes the five scores.
use predictive_analysis.Common.{
  ℕ, ◌+◌, ◌*◌, ◌<◌, true, false, [], ◌∷◌, ◌≡◌, ◌↔◌, refl, ap, arith, ltb, if◌then◌else◌, contains,
}
use predictive_analysis.Common.Integers.{
  ℤ, integer_eq, same_integer_iff, plus, scale, at_most, greater, lesser, minus,
}
use predictive_analysis.Common.Dict.{Dict, put}

-- `_clamp`
unfoldable pub clamp : ℤ → ℤ → ℤ → ℤ
clamp value low high = greater low (lesser high value)

-- One weight for each of the five dimensions.
pub record Dimensions : Type 0 where
  pub schema_quality : ℕ
  pub completeness_quality : ℕ
  pub validity_quality : ℕ
  pub duplicate_quality : ℕ
  pub timestamp_quality : ℕ

-- One score for each of them.
pub record Scores : Type 0 where
  pub schema_quality : ℤ
  pub completeness_quality : ℤ
  pub validity_quality : ℤ
  pub duplicate_quality : ℤ
  pub timestamp_quality : ℤ

pub record Mean : Type 0 where
  pub numerator : ℤ
  pub denominator : ℕ

-- `weighted`: the dict from each score to its weight.
unfoldable pub weighted : Scores → Dimensions → Dict ℤ ℕ
weighted score weight = put score.timestamp_quality weight.timestamp_quality (
    put score.duplicate_quality weight.duplicate_quality (
      put score.validity_quality weight.validity_quality (
        put score.completeness_quality weight.completeness_quality
          (put score.schema_quality weight.schema_quality []))))

-- `sum(weighted.values())`
abbrev pub total_weight : Dict ℤ ℕ → ℕ
total_weight [] = 0
total_weight ((s, w) ∷ d) = w + total_weight d

-- `sum(score * weight for score, weight in weighted.items())`
abbrev pub weighted_sum : Dict ℤ ℕ → ℤ
weighted_sum [] = ℤ.pos 0
weighted_sum ((s, w) ∷ d) = plus (scale w s) (weighted_sum d)

-- `_clamp(overall)`, from the dict, with the number of units in 100.
unfoldable pub clamped_mean : ℕ → Dict ℤ ℕ → Mean
unfolding clamp
clamped_mean hundred d =
    if ltb 0 (total_weight d)
    then record {
      numerator = clamp (weighted_sum d) (ℤ.pos 0) (ℤ.pos (hundred * total_weight d));
      denominator = total_weight d;
    }
    else record { numerator = ℤ.pos 0; denominator = 1 }

unfoldable pub overall_quality : ℕ → Scores → Dimensions → Mean
unfolding weighted clamped_mean
overall_quality hundred score weight = clamped_mean hundred (weighted score weight)

weighted_shadowed :
    (score : Scores) (weight : Dimensions) (other : ℕ)
    → score.schema_quality ≡ score.completeness_quality
    → weighted score (record weight { schema_quality = other }) ≡ weighted score weight
unfolding weighted
weighted_shadowed score weight other h =
    rw ((same_integer_iff score.schema_quality score.completeness_quality).1 h) refl

-- If the schema and the completeness score are equal, the weight of the schema score plays no part:
-- the overall score is the same for any two weights of it.
pub overall_quality_shadowed :
    (hundred : ℕ) (score : Scores) (weight : Dimensions) (other : ℕ)
    → score.schema_quality ≡ score.completeness_quality
    → overall_quality hundred score (record weight { schema_quality = other })
      ≡ overall_quality hundred score weight
unfolding overall_quality
overall_quality_shadowed hundred score weight other h =
    ap (clamped_mean hundred) (weighted_shadowed score weight other h)

-- No two of the five scores are equal.
abbrev pub AllDifferent : Scores → Type 0
AllDifferent s =
    (contains
        (s.completeness_quality ∷ s.validity_quality ∷ s.duplicate_quality ∷ s.timestamp_quality
          ∷ [])
        s.schema_quality
      ≡ false)
    × (contains (s.validity_quality ∷ s.duplicate_quality ∷ s.timestamp_quality ∷ [])
          s.completeness_quality
        ≡ false)
    × (contains (s.duplicate_quality ∷ s.timestamp_quality ∷ []) s.validity_quality ≡ false)
    × (contains (s.timestamp_quality ∷ []) s.duplicate_quality ≡ false)

-- If the five scores are different, each of them keeps its weight.
weighted-AllDifferent :
    (s : Scores) (w : Dimensions)
    → AllDifferent s
    → weighted s w
      ≡ (s.schema_quality, w.schema_quality)
        ∷ (s.completeness_quality, w.completeness_quality)
        ∷ (s.validity_quality, w.validity_quality)
        ∷ (s.duplicate_quality, w.duplicate_quality)
        ∷ (s.timestamp_quality, w.timestamp_quality)
        ∷ []
unfolding weighted
weighted-AllDifferent s w h = ground (arith, integer_eq.same_iff)

-- A clamped value lies between its bounds.
pub clamp-bounds :
    (value : ℤ) (high : ℕ)
    → (at_most (ℤ.pos 0) (clamp value (ℤ.pos 0) (ℤ.pos high)) ≡ true)
      × (at_most (clamp value (ℤ.pos 0) (ℤ.pos high)) (ℤ.pos high) ≡ true)
unfolding clamp
clamp-bounds (ℤ.pos n) high = ground arith
clamp-bounds (ℤ.negsuc n) high = ground arith

-- What is clamped to its upper bound, after a penalty on it, had none.
pub clamp_full :
    (high penalty : ℕ)
    → 0 < high
    → (clamp (minus high penalty) (ℤ.pos 0) (ℤ.pos high) ≡ ℤ.pos high) ↔ (penalty ≡ 0)
unfolding clamp
clamp_full high penalty h = (λ k. ground (arith, h, k), λ k. rw k (ground (arith, h)))
