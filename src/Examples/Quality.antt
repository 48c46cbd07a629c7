-- ===== src/Examples/Quality.antt =====
-- A file in which a field shows two of its sentinels.
use predictive_analysis.Common.{
  ℕ, true, ◌++◌, nat_eq, none, some, [], ◌∷◌, ◌≡◌, refl, arith, map, length,
}
use predictive_analysis.Common.Dict.{Dict}
use predictive_analysis.Common.Sums.{NoRepeats}
use predictive_analysis.Common.Text.{codes}
use predictive_analysis.Common.Codes.{Text, text_eq}
use predictive_analysis.Validation.Classifier.{classify_field}
use predictive_analysis.Validation.Dictionary.{FieldSpec}
use predictive_analysis.Quality.Findings.{FieldProfile, QualityContext, pairs, issue_hash}
use predictive_analysis.Quality.Rules.{sentinel_hits_of, sentinel_value}
use predictive_analysis.Quality.Rules.Collisions.{sentinel_value-repeats}
use predictive_analysis.Quality.Kinds.{VariabilityClass}
use predictive_analysis.Examples.Dimensions.{small_context}

abbrev probe : FieldSpec
probe = record (classify_field (codes "Probe Temp") 1 (codes "probe_temp") none) {
  sentinel_values = (codes "-150", none) ∷ ((codes "-150.0", some (codes "no probe")) ∷ []);
}

abbrev probe_hits : Dict Text ℕ
probe_hits = (codes "-150", 40) ∷ ((codes "-150.0", 2) ∷ [])

two_findings : length (sentinel_hits_of probe probe_hits) ≡ 2
unfolding sentinel_hits_of
two_findings = refl

abbrev as_hash : Text → Text
as_hash s = s

-- The only column of the file.
abbrev probe_column : FieldProfile
probe_column = record {
  position = 0;
  source_name = codes "Probe Temp";
  null_count = 0;
  variability = VariabilityClass.variable_in_sample;
  min_value = none;
  max_value = none;
  numeric_valid_count = none;
  observed_values = none;
  sentinel_hits = probe_hits;
}

abbrev probe_context : QualityContext
probe_context = record small_context {
  profile = record (small_context.profile) { fields = probe_column ∷ [] };
  resolved_fields = record { spec = probe; source_position = 0; is_dictionary_mapped = true } ∷ [];
}

pairs-probe : pairs probe_context ≡ [] ++ (probe, probe_column) ∷ []
unfolding pairs
pairs-probe = refl

sentinel_value-repeats_example :
    ¬ NoRepeats (map (issue_hash as_hash) (sentinel_value probe_context))
unfolding classify_field
sentinel_value-repeats_example =
    sentinel_value-repeats as_hash probe_context [] [] probe probe_column (codes "-150")
      (codes "-150.0") 40 2 pairs-probe refl (refl, refl, omega arith) (refl, refl, omega arith)
