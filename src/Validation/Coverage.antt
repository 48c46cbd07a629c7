-- ===== src/Validation/Coverage.antt =====
-- pipelines/validation/coverage.py: how much of a header the dictionary covers. The percentage is
-- left as the two counts that it divides; rendering is left out.
pub mod Totals
use predictive_analysis.Common.{
  ℕ, ◌+◌, Bool, true, false, not, List, [], ◌∷◌, map, eqb, if◌then◌else◌, length, select, zero, suc,
}
use predictive_analysis.Common.Dict.{Dict, values}
use predictive_analysis.Common.Codes.{Text, text_eq}
use predictive_analysis.Profiling.Header.{RawHeaderParseResult}
use predictive_analysis.Validation.Fields.{ReviewStatus}
use predictive_analysis.Validation.Dictionary.{FieldSpec, ResolvedField}

pub data SchemaCoverageStatus : Type 0 where
  complete incomplete : SchemaCoverageStatus

-- The counter of each review status.
pub record ReviewCounts : Type 0 where
  pub auto_classified : ℕ
  pub engineer_reviewed : ℕ
  pub domain_review_required : ℕ
  pub verified : ℕ

-- `counts[item.spec.review_status] += 1`
abbrev pub count_review : ReviewStatus → ReviewCounts → ReviewCounts
count_review ReviewStatus.auto_classified c = record c { auto_classified = suc c.auto_classified }
count_review ReviewStatus.engineer_reviewed c = record c {
  engineer_reviewed = suc c.engineer_reviewed;
}
count_review ReviewStatus.domain_review_required c = record c {
  domain_review_required = suc c.domain_review_required;
}
count_review ReviewStatus.verified c = record c { verified = suc c.verified }

abbrev pub count_reviews : List ResolvedField → ReviewCounts → ReviewCounts
count_reviews [] c = c
count_reviews (item ∷ resolved) c = count_reviews resolved (count_review item.spec.review_status c)

abbrev pub no_reviews : ReviewCounts
no_reviews = record {
  auto_classified = 0;
  engineer_reviewed = 0;
  domain_review_required = 0;
  verified = 0;
}

pub record CoverageReport : Type 0 where
  pub source_positions : ℕ
  pub mapped : ℕ
  pub unmapped : ℕ
  pub duplicate_names_handled : ℕ
  pub duplicate_positions : ℕ
  pub reviews : ReviewCounts
  pub unmapped_examples : List Text

-- `CoverageReport.status`
unfoldable pub coverage_status : CoverageReport → SchemaCoverageStatus
coverage_status report =
    if eqb report.unmapped 0 then SchemaCoverageStatus.complete else SchemaCoverageStatus.incomplete

abbrev pub sum_of : List ℕ → ℕ
sum_of [] = 0
sum_of (n ∷ ns) = n + sum_of ns

abbrev take : {A : Type 0} → ℕ → List A → List A
take zero xs = []
take (suc n) [] = []
take (suc n) (x ∷ xs) = x ∷ take n xs

abbrev pub is_mapped : ResolvedField → Bool
is_mapped r = r.is_dictionary_mapped

abbrev names_of : List ResolvedField → List Text
names_of resolved = map (λ (r : ResolvedField). r.spec.source_name) resolved

unfoldable pub build_coverage_report : RawHeaderParseResult → List ResolvedField → CoverageReport
build_coverage_report header resolved =
    let unmapped = select (λ r. not (is_mapped r)) resolved in
    record {
      source_positions = header.field_count;
      mapped = length (select is_mapped resolved);
      unmapped = length unmapped;
      duplicate_names_handled = length header.duplicate_names;
      duplicate_positions = sum_of (values header.duplicate_names);
      reviews = count_reviews resolved no_reviews;
      unmapped_examples = names_of (take 20 unmapped);
    }

pub record FieldInventory : Type 0 where
  pub total_fields : ℕ
  pub registered_fields : ℕ
  pub unregistered_fields : ℕ
  pub duplicate_headers : ℕ
  pub unknown_fields : List Text
  pub missing_expected_fields : List Text
  pub additional_fields : List Text
  pub coverage : CoverageReport

unfoldable pub build_inventory :
    RawHeaderParseResult → List ResolvedField → List Text → List Text → FieldInventory
unfolding build_coverage_report
build_inventory header resolved missing_expected additional =
    let coverage = build_coverage_report header resolved in
    record {
      total_fields = header.field_count;
      registered_fields = coverage.mapped;
      unregistered_fields = coverage.unmapped;
      duplicate_headers = length header.duplicate_names;
      unknown_fields = names_of (select (λ r. not (is_mapped r)) resolved);
      missing_expected_fields = missing_expected;
      additional_fields = additional;
      coverage = coverage;
    }
