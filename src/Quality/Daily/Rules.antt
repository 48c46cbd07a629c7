-- ===== src/Quality/Daily/Rules.antt =====
-- The nine rules of pipelines/quality/daily_rules.py, and their evaluation.
use predictive_analysis.Common.{
  ℕ, zero, suc, ◌-◌, Bool, ◌&&◌, Option, none, some, List, [], ◌∷◌, ◌++◌, if◌then◌else◌, ◌==◌, ltb,
  leb, length, select,
}
use predictive_analysis.Common.Codes.{Text, text_eq, codes_le}
use predictive_analysis.Common.Sorting.{sort_by}
use predictive_analysis.Profiling.Header.{join}
use predictive_analysis.Ingestion.Coverage.{GapCandidate, CompletenessStatus}
use predictive_analysis.Ingestion.Coverage.Evaluation.{CoverageEvaluation}
use predictive_analysis.Quality.Kinds.{QualityIssueType, issue_value, scope_value}
use predictive_analysis.Quality.Daily.{
  gap_order, severity_of, parse_gap_severity, daily, is_missing, is_late_status, has_some, has_data,
  DailyFinding, DailyQualitySeverities, ChargerDayContext,
}

-- A rule, of the context and the configured severities.
abbrev pub DailyRule : Type 0
DailyRule = ChargerDayContext → DailyQualitySeverities → List DailyFinding

abbrev pub missing_charger_data_rule : DailyRule
missing_charger_data_rule ctx cfg =
    if is_missing ctx.arrival_status
    then daily ctx QualityIssueType.missing_charger_data (severity_of cfg.missing_charger_data) 1
      ∷ []
    else []

abbrev pub late_file_rule : DailyRule
late_file_rule ctx cfg =
    if is_late_status ctx.arrival_status
    then daily ctx QualityIssueType.late_file (severity_of cfg.late_file) 1 ∷ []
    else []

abbrev pub completeness_of :
    ChargerDayContext → DailyQualitySeverities → CompletenessStatus → List DailyFinding
completeness_of ctx cfg CompletenessStatus.partial =
    daily ctx QualityIssueType.partial_day (severity_of cfg.partial_day) 1 ∷ []
completeness_of ctx cfg CompletenessStatus.severely_incomplete =
    daily ctx QualityIssueType.severely_incomplete_day (severity_of cfg.severely_incomplete_day) 1
    ∷ []
completeness_of ctx cfg status = []

abbrev pub completeness_rule : DailyRule
completeness_rule ctx cfg = completeness_of ctx cfg ctx.evaluation.completeness_status

-- `max(reportable, key=lambda g: g.duration_seconds)`: the first of the longest.
abbrev pub worst_of : GapCandidate → List GapCandidate → GapCandidate
worst_of best [] = best
worst_of best (g ∷ gaps) =
    worst_of (if ltb best.duration_seconds g.duration_seconds then g else best) gaps

-- The gaps that reach the configured floor.
abbrev pub reportable : ChargerDayContext → DailyQualitySeverities → List GapCandidate
reportable ctx cfg =
    select
      (λ (g : GapCandidate).
        leb (gap_order (parse_gap_severity cfg.gap_min_severity)) (gap_order g.severity))
      ctx.evaluation.gaps

abbrev pub gap_finding :
    ChargerDayContext → DailyQualitySeverities → List GapCandidate → List DailyFinding
gap_finding ctx cfg [] = []
gap_finding ctx cfg (g ∷ gaps) =
    record (daily ctx QualityIssueType.telemetry_gap (severity_of cfg.telemetry_gap)
      (length (g ∷ gaps))) { event_time = some (worst_of g gaps).start_event_at }
    ∷ []

abbrev pub telemetry_gap_rule : DailyRule
telemetry_gap_rule ctx cfg = gap_finding ctx cfg (reportable ctx cfg)

-- The cadence is off, and there is an interval to tell it by.
abbrev pub shows_cadence : CoverageEvaluation → Bool
shows_cadence ev = ev.cadence_is_abnormal && has_some ev.observed_intervals

abbrev pub abnormal_cadence_rule : DailyRule
abnormal_cadence_rule ctx cfg =
    if shows_cadence ctx.evaluation
    then daily ctx QualityIssueType.abnormal_sampling_interval
        (severity_of cfg.abnormal_sampling_interval) 1
      ∷ []
    else []

-- How many components are missing, if fewer are observed than expected.
abbrev pub shortfall : Option ℕ → ℕ → ℕ
shortfall none observed = 0
shortfall (some count) observed = count - observed

abbrev pub missing_components : ChargerDayContext → QualityIssueType → Text → ℕ → List DailyFinding
missing_components ctx code severity lacking =
    if ltb 0 lacking then daily ctx code (severity_of severity) lacking ∷ [] else []

abbrev pub missing_topology_rule : DailyRule
missing_topology_rule ctx cfg =
    if has_data ctx.evaluation
    then missing_components ctx QualityIssueType.missing_expected_connector
        cfg.missing_expected_connector
        (shortfall ctx.expected_connectors (length ctx.evaluation.connectors_detected))
      ++ missing_components ctx QualityIssueType.missing_expected_smr cfg.missing_expected_smr
          (shortfall ctx.expected_smrs (length ctx.evaluation.smrs_detected))
    else []

abbrev pub multiple_files_rule : DailyRule
multiple_files_rule ctx cfg =
    if leb ctx.evaluation.file_count 1
    then []
    else daily ctx QualityIssueType.multiple_files_same_charger_day
        (severity_of cfg.multiple_files_same_charger_day) ctx.evaluation.file_count
      ∷ []

abbrev pub overlapping_coverage_rule : DailyRule
overlapping_coverage_rule ctx cfg =
    if leb ctx.evaluation.overlapping_timestamp_count 0
    then []
    else daily ctx QualityIssueType.overlapping_file_coverage
        (severity_of cfg.overlapping_file_coverage) ctx.evaluation.overlapping_timestamp_count
      ∷ []

-- `text[:n]`
abbrev take : ℕ → Text → Text
take zero t = []
take (suc n) [] = []
take (suc n) (c ∷ t) = c ∷ take n t

abbrev pub mismatch_findings :
    ChargerDayContext → DailyQualitySeverities → List (Text × ℕ) → List DailyFinding
mismatch_findings ctx cfg [] = []
mismatch_findings ctx cfg ((filename, date) ∷ more) =
    record (daily ctx QualityIssueType.event_date_filename_mismatch
      (severity_of cfg.event_date_filename_mismatch) 1) {
        entity_reference = some (take 128 filename);
      }
    ∷ mismatch_findings ctx cfg more

abbrev pub filename_mismatch_rule : DailyRule
filename_mismatch_rule ctx cfg = mismatch_findings ctx cfg ctx.filename_date_mismatches

-- `_RULES`
abbrev pub daily_rules : List DailyRule
daily_rules =
    missing_charger_data_rule
    ∷ (late_file_rule
        ∷ (completeness_rule
            ∷ (telemetry_gap_rule
                ∷ (abnormal_cadence_rule
                    ∷ (missing_topology_rule
                        ∷ (multiple_files_rule
                            ∷ (overlapping_coverage_rule ∷ (filename_mismatch_rule ∷ []))))))))

abbrev pub run_rules :
    List DailyRule → ChargerDayContext → DailyQualitySeverities → List DailyFinding
run_rules [] ctx cfg = []
run_rules (rule ∷ rules) ctx cfg = rule ctx cfg ++ run_rules rules ctx cfg

abbrev text_or_none : Option Text → Text
text_or_none none = []
text_or_none (some t) = t

module _ (sha256 : Text → Text) (date_text : ℕ → Text) (time_text : ℕ → Text) where
  abbrev time_or_none : Option ℕ → Text
  time_or_none none = []
  time_or_none (some t) = time_text t

  -- `issue_hash`
  unfoldable pub daily_hash : DailyFinding → Text
  unfolding issue_value scope_value
  daily_hash f = sha256 (
      join (
        issue_value f.rule_code
        ∷ (scope_value f.scope
            ∷ (f.charger_id
                ∷ (date_text f.business_date
                    ∷ (text_or_none f.entity_reference ∷ (time_or_none f.event_time ∷ [])))))))

  abbrev then_by : Text → Text → Bool → Bool
  then_by a b rest = if a == b then rest else codes_le a b

  -- `key=lambda f: (f.rule_code.value, f.entity_reference or "", f.issue_hash)`
  unfoldable pub daily_le : DailyFinding → DailyFinding → Bool
  unfolding daily_hash issue_value
  daily_le a b = then_by (issue_value a.rule_code) (issue_value b.rule_code) (
      then_by (text_or_none a.entity_reference) (text_or_none b.entity_reference)
        (codes_le (daily_hash a) (daily_hash b)))

  unfoldable pub evaluate_charger_day_rules :
      ChargerDayContext → DailyQualitySeverities → List DailyFinding
  unfolding daily_le
  evaluate_charger_day_rules ctx cfg = sort_by daily_le (run_rules daily_rules ctx cfg)
