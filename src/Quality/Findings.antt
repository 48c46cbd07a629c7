-- ===== src/Quality/Findings.antt =====
-- pipelines/quality/base.py and the observations of pipelines/profiling/profiler.py that its rules read.
-- The profile of a file is an input, since polars computes it; a ratio is in thousandths, an interval in
-- seconds. Messages and details are left out of a finding, and so are the three locators that no file
-- rule sets. No rule of the model raises.
use predictive_analysis.Common.{
  ℕ, zero, suc, ◌*◌, ◌-◌, Bool, true, false, ◌&&◌, Option, none, some, List, [], ◌∷◌, ◌++◌,
  if◌then◌else◌, ◌==◌, ltb, leb, nat_eq,
}
use predictive_analysis.Common.Dict.{Dict, get, put}
use predictive_analysis.Common.Codes.{Text, text_eq, number, codes_le}
use predictive_analysis.Common.Sorting.{sort_by}
use predictive_analysis.Profiling.Header.{RawHeaderParseResult, join}
use predictive_analysis.Validation.Fields.{FieldEntity}
use predictive_analysis.Validation.Dictionary.{FieldSpec, ResolvedField, DictionaryRegistry}
use predictive_analysis.Quality.Kinds.{
  QualityIssueType, QualityRuleScope, QualitySeverity, VariabilityClass, issue_value, scope_value,
}

pub record QualityFinding : Type 0 where
  pub rule_code : QualityIssueType
  pub scope : QualityRuleScope
  pub severity : QualitySeverity
  pub field_name : Option Text
  pub field_occurrence : Option ℕ
  pub canonical_name : Option Text
  pub entity : Option FieldEntity
  pub raw_value : Option Text
  pub occurrence_count : ℕ

pub record FieldProfile : Type 0 where
  pub position : ℕ
  pub source_name : Text
  pub null_count : ℕ
  pub variability : VariabilityClass
  pub min_value : Option Text
  pub max_value : Option Text
  pub numeric_valid_count : Option ℕ
  pub observed_values : Option (List Text)
  pub sentinel_hits : Dict Text ℕ

pub record TimestampAnalysis : Type 0 where
  pub total_values : ℕ
  pub null_count : ℕ
  pub parsed_count : ℕ
  pub failed_count : ℕ
  pub column : Option Text
  pub median_interval_seconds : Option ℕ
  pub max_interval_seconds : Option ℕ
  pub dominant_business_date : Option ℕ

pub record DuplicateAnalysis : Type 0 where
  pub exact_duplicate_rows : ℕ
  pub logical_key_groups : ℕ
  pub logical_collision_groups : ℕ
  pub conflicting_logical_groups : ℕ

pub record FileProfile : Type 0 where
  pub row_count : ℕ
  pub header : RawHeaderParseResult
  pub missing_roles : List Text
  pub timestamps : TimestampAnalysis
  pub duplicates : DuplicateAnalysis
  pub fields : List FieldProfile
  pub connectors : Dict Text ℕ
  pub smrs : Dict Text ℕ

pub record QualityContext : Type 0 where
  pub profile : FileProfile
  pub resolved_fields : List ResolvedField
  pub registry : DictionaryRegistry
  pub filename_date : Option ℕ
  pub expected_connector_count : Option ℕ
  pub expected_smr_count : Option ℕ
  pub telemetry_gap_factor : ℕ
  pub timestamp_failure_tolerance : ℕ
  pub missing_schema_fields : List Text
  pub additional_schema_fields : List Text
  pub schema_is_known : Bool

abbrev is_positive : Option ℕ → Bool
is_positive none = false
is_positive (some n) = ltb 0 n

-- `FieldProfile.is_numeric`
abbrev pub is_numeric : FieldProfile → Bool
is_numeric f = is_positive f.numeric_valid_count

-- `is_within_tolerance`, of the share of values that could not be parsed.
abbrev pub is_within_tolerance : TimestampAnalysis → ℕ → Bool
is_within_tolerance a tolerance =
    let considered = a.total_values - a.null_count in
    ltb 0 a.parsed_count
    && (if ltb 0 considered then leb (a.failed_count * 1000) (considered * tolerance) else true)

abbrev spec_by_position : List ResolvedField → Dict ℕ FieldSpec → Dict ℕ FieldSpec
spec_by_position [] d = d
spec_by_position (r ∷ resolved) d = spec_by_position resolved (put r.source_position r.spec d)

abbrev profile_by_position : List FieldProfile → Dict ℕ FieldProfile → Dict ℕ FieldProfile
profile_by_position [] d = d
profile_by_position (f ∷ fields) d = profile_by_position fields (put f.position f d)

abbrev pair_with :
    FieldSpec
    → Option FieldProfile
    → List (FieldSpec × FieldProfile)
    → List (FieldSpec × FieldProfile)
pair_with spec none rest = rest
pair_with spec (some observed) rest = (spec, observed) ∷ rest

abbrev pairs_of : Dict ℕ FieldProfile → Dict ℕ FieldSpec → List (FieldSpec × FieldProfile)
pairs_of profiles [] = []
pairs_of profiles ((position, spec) ∷ specs) =
    pair_with spec (get position profiles) (pairs_of profiles specs)

-- `pairs`: every definition with its observation.
unfoldable pub pairs : QualityContext → List (FieldSpec × FieldProfile)
pairs context =
    pairs_of (profile_by_position context.profile.fields [])
      (spec_by_position context.resolved_fields [])

abbrev text_or_empty : Option Text → Text
text_or_empty none = []
text_or_empty (some t) = t

-- `str(self.field_occurrence or "")`
abbrev number_or_empty : Option ℕ → Text
number_or_empty none = []
number_or_empty (some zero) = []
number_or_empty (some (suc n)) = number (suc n)

module _ (sha256 : Text → Text) where
  unfoldable pub issue_hash : QualityFinding → Text
  unfolding issue_value scope_value
  issue_hash f = sha256 (
      join (
        issue_value f.rule_code
        ∷ (scope_value f.scope
            ∷ (text_or_empty f.field_name
                ∷ (number_or_empty f.field_occurrence ∷ ([] ∷ ([] ∷ ([] ∷ []))))))))

  -- `key=lambda f: (f.rule_code.value, f.field_name or "", f.issue_hash)`
  abbrev texts_le : Text → Text → Bool → Bool
  texts_le a b rest = if a == b then rest else codes_le a b

  abbrev pub finding_le : QualityFinding → QualityFinding → Bool
  finding_le a b = texts_le (issue_value a.rule_code) (issue_value b.rule_code) (
      texts_le (text_or_empty a.field_name) (text_or_empty b.field_name)
        (codes_le (issue_hash a) (issue_hash b)))

  abbrev pub all_findings :
      List (QualityContext → List QualityFinding) → QualityContext → List QualityFinding
  all_findings [] context = []
  all_findings (rule ∷ rules) context = rule context ++ all_findings rules context

  -- `RuleRegistry.evaluate`
  unfoldable pub evaluate_rules :
      List (QualityContext → List QualityFinding) → QualityContext → List QualityFinding
  evaluate_rules rules context = sort_by finding_le (all_findings rules context)
