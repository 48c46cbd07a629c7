-- ===== src/Examples/Daily.antt =====
-- The rules of a charger-day with two overlapping files, a gap and a connector too few.
use predictive_analysis.Common.{
  Bool, true, false, none, some, [], ◌∷◌, ◌≡◌, refl, map, nat_eq, string_eq,
}
use predictive_analysis.Common.Text.{codes}
use predictive_analysis.Common.Codes.{text_eq, number}
use predictive_analysis.Common.Decimal.{decimal}
use predictive_analysis.Common.Sorting.{sort_by}
use predictive_analysis.Ingestion.Coverage.{gaps_from, count_files, day_timestamps}
use predictive_analysis.Ingestion.Coverage.Evaluation.{evaluate_charger_day}
use predictive_analysis.Quality.Kinds.{QualityIssueType, QualitySeverity, issue_value}
use predictive_analysis.Quality.Daily.{
  ArrivalStatus, ChargerDayContext, default_severities, severity_of, parse_gap_severity,
}
use predictive_analysis.Quality.Daily.Rules.{evaluate_charger_day_rules, daily_le}
use predictive_analysis.Quality.Daily.Triggers.{
  evaluate_charger_day_rules-shown, shown, due, triggers,
}
use predictive_analysis.Examples.Header.{plain_hash}
use predictive_analysis.Examples.Coverage.{policy, files}

abbrev day_context : ChargerDayContext
day_context = record {
  evaluation = evaluate_charger_day "charger" 0 20000000 files policy;
  business_date = 20000;
  arrival_status = ArrivalStatus.received;
  expected_connectors = some 2;
  expected_smrs = none;
  filename_date_mismatches = (codes "day.csv", 19999) ∷ [];
}

codes_in_order :
    map
      (λ f. f.rule_code)
      (evaluate_charger_day_rules plain_hash number number day_context default_severities)
    ≡ QualityIssueType.event_date_filename_mismatch
      ∷ (QualityIssueType.missing_expected_connector
          ∷ (QualityIssueType.multiple_files_same_charger_day
              ∷ (QualityIssueType.overlapping_file_coverage
                  ∷ (QualityIssueType.partial_day ∷ (QualityIssueType.telemetry_gap ∷ [])))))
unfolding evaluate_charger_day_rules daily_le sort_by issue_value evaluate_charger_day gaps_from
    day_timestamps count_files decimal severity_of parse_gap_severity
codes_in_order = refl

abbrev is_warning : QualitySeverity → Bool
is_warning QualitySeverity.warning = true
is_warning severity = false

evaluate_charger_day_rules-shown_example :
    shown
      (λ code severity. is_warning severity)
      (evaluate_charger_day_rules plain_hash number number day_context default_severities)
    ≡ due (λ code severity. is_warning severity) (triggers day_context default_severities)
evaluate_charger_day_rules-shown_example =
    evaluate_charger_day_rules-shown (λ code severity. is_warning severity) plain_hash number number
      day_context default_severities
