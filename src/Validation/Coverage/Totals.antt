-- ===== src/Validation/Coverage/Totals.antt =====
-- The totals of a coverage report.
use mathlib.Core.Option.{some-injective}
use predictive_analysis.Common.{
  ℕ, zero, suc, ◌+◌, Bool, true, false, not, some, List, [], ◌∷◌, ◌≡◌, ◌∙◌, ◌↔◌, refl, length,
  select, All, arith, eqb, if◌then◌else◌, Bool-cases, inl, inr,
}
use predictive_analysis.Common.Codes.{Text, text_eq}
use predictive_analysis.Profiling.Header.{RawHeaderField, RawHeaderParseResult, parse_header_text}
use predictive_analysis.Validation.Fields.{ReviewStatus}
use predictive_analysis.Validation.Dictionary.{ResolvedField, DictionaryRegistry}
use predictive_analysis.Validation.Resolution.{resolve_all}
use predictive_analysis.Validation.Coverage.{
  ReviewCounts, count_review, count_reviews, no_reviews, CoverageReport, SchemaCoverageStatus,
  coverage_status, build_coverage_report, is_mapped,
}

abbrev pub total_reviews : ReviewCounts → ℕ
total_reviews c = c.verified + c.engineer_reviewed + c.auto_classified + c.domain_review_required

total-count_review :
    (s : ReviewStatus) (c : ReviewCounts) → total_reviews (count_review s c) ≡ suc (total_reviews c)
total-count_review ReviewStatus.auto_classified c = omega arith
total-count_review ReviewStatus.engineer_reviewed c = omega arith
total-count_review ReviewStatus.domain_review_required c = omega arith
total-count_review ReviewStatus.verified c = omega arith

total-count_reviews :
    (resolved : List ResolvedField) (c : ReviewCounts)
    → total_reviews (count_reviews resolved c) ≡ length resolved + total_reviews c
total-count_reviews [] c = omega arith
total-count_reviews (item ∷ resolved) c =
    total-count_reviews resolved (count_review item.spec.review_status c)
    ∙ omega (arith, total-count_review item.spec.review_status c)

split_mapped :
    (resolved : List ResolvedField)
    → length (select is_mapped resolved) + length (select (λ r. not (is_mapped r)) resolved)
      ≡ length resolved
split_mapped [] = refl
split_mapped (item ∷ resolved) = ground (arith, split_mapped resolved)

none_left :
    {A : Type 0} (p : A → Bool) (xs : List A)
    → (length (select (λ x. not (p x)) xs) ≡ 0) ↔ All (λ x. p x ≡ true) xs
none_left p [] = (λ _. tt, λ _. refl)
none_left p (x ∷ xs) = elim (Bool-cases (p x)) [
  | inl q ↦ rw q (λ h. (refl, (none_left p xs).0 h), λ h. (none_left p xs).1 h.1)
  | inr q ↦ rw q (λ h. absurd (omega (arith, h)), λ h. cc h.0)
]

status_if_zero :
    (n : ℕ)
    → ((if eqb n 0 then SchemaCoverageStatus.complete else SchemaCoverageStatus.incomplete)
        ≡ SchemaCoverageStatus.complete)
      ↔ (n ≡ 0)
status_if_zero zero = (λ _. refl, λ _. refl)
status_if_zero (suc n) =
    let other : eqb (suc n) 0 ≡ false = ground arith in
    rw other (λ h. cc h, λ h. absurd (omega (arith, h)))

coverage_status_iff :
    (report : CoverageReport)
    → (coverage_status report ≡ SchemaCoverageStatus.complete) ↔ (report.unmapped ≡ 0)
unfolding coverage_status
coverage_status_iff report = status_if_zero report.unmapped

module _ (sha256 : Text → Text) (matches : Text → Text → Bool) where
  length-resolve_all :
      (r : DictionaryRegistry) (fields : List RawHeaderField)
      → length (resolve_all matches r fields) ≡ length fields
  unfolding resolve_all
  length-resolve_all r [] = refl
  length-resolve_all r (f ∷ fields) = omega (arith, length-resolve_all r fields)

  field_count_lem :
      (row : List Text) (header : RawHeaderParseResult)
      → parse_header_text sha256 row ≡ some header
      → header.field_count ≡ length header.fields
  unfolding parse_header_text
  field_count_lem [] header h = cc
  field_count_lem (name ∷ names) header h = rw (← some-injective _ _ h) refl

  -- In the report of a parsed header that a dictionary resolved, every source position counts as
  -- mapped or unmapped and under one review status, and the status is complete if and only if the
  -- dictionary maps every position.
  pub coverage-accounts_for_positions :
      (r : DictionaryRegistry) (row : List Text) (header : RawHeaderParseResult)
      → parse_header_text sha256 row ≡ some header
      → let resolved = resolve_all matches r header.fields in
        let report = build_coverage_report header resolved in
        (report.mapped + report.unmapped ≡ report.source_positions)
        × (total_reviews report.reviews ≡ report.source_positions)
        × ((coverage_status report ≡ SchemaCoverageStatus.complete)
            ↔ All (λ f. f.is_dictionary_mapped ≡ true) resolved)
  unfolding build_coverage_report
  coverage-accounts_for_positions r row header h =
      let resolved = resolve_all matches r header.fields in
      let report = build_coverage_report header resolved in
      let positions = field_count_lem row header h in
      let fields = length-resolve_all r header.fields in
      (
        omega (arith, positions, fields, split_mapped resolved),
        omega (arith, positions, fields, total-count_reviews resolved no_reviews),
        (
          λ c. (none_left is_mapped resolved).0 ((coverage_status_iff report).0 c),
          λ a. (coverage_status_iff report).1 ((none_left is_mapped resolved).1 a),
        ),
      )
