-- ===== src/Examples/Scores.antt =====
-- Scores with two equal dimensions, and scores that are all different.
use predictive_analysis.Common.{ℕ, ◌≡◌, refl}
use predictive_analysis.Common.Integers.{ℤ}
use predictive_analysis.Quality.Scoring.{
  Dimensions, Scores, clamp, clamped_mean, overall_quality, weighted, overall_quality_shadowed,
}

abbrev scores : ℕ → ℕ → ℕ → ℕ → ℕ → Scores
scores s c v d t = record {
  schema_quality = ℤ.pos s;
  completeness_quality = ℤ.pos c;
  validity_quality = ℤ.pos v;
  duplicate_quality = ℤ.pos d;
  timestamp_quality = ℤ.pos t;
}

abbrev five : ℕ → ℕ → ℕ → ℕ → ℕ → Dimensions
five s c v d t = record {
  schema_quality = s;
  completeness_quality = c;
  validity_quality = v;
  duplicate_quality = d;
  timestamp_quality = t;
}

abbrev pub default_weights : Dimensions
default_weights = five 30 20 20 15 15

-- Four scores of 100 and one of 50: the four share one weight, and the overall score is 75.
collapsed :
    overall_quality 100 (scores 100 100 100 50 100) default_weights
    ≡ record { numerator = ℤ.pos 2250; denominator = 30 }
unfolding overall_quality weighted clamped_mean clamp
collapsed = refl

overall_quality_shadowed_example :
    overall_quality 100 (scores 90 90 80 70 60) (five 1 20 20 15 15)
    ≡ overall_quality 100 (scores 90 90 80 70 60) default_weights
overall_quality_shadowed_example =
    overall_quality_shadowed 100 (scores 90 90 80 70 60) default_weights 1 refl
