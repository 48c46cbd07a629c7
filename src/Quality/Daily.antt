-- ===== src/Quality/Daily.antt =====
-- pipelines/quality/daily_rules.py: the rules of a charger-day, over its coverage. Messages and details
-- are left out of a finding. A business date is a number of days; how a date and a time are printed
-- are parameters. `upper` is that of ASCII.
pub mod Rules
pub mod Triggers
use predictive_analysis.Common.{
  ℕ, zero, suc, ◌-◌, Bool, true, false, ◌&&◌, Option, none, some, List, [], ◌∷◌, ◌++◌,
  if◌then◌else◌, ◌==◌, ltb, leb, length, select, map,
}
use predictive_analysis.Common.Text.{codes}
use predictive_analysis.Common.Codes.{Text, text_eq, codes_le}
use predictive_analysis.Common.Sorting.{sort_by}
use predictive_analysis.Profiling.Header.{join}
use predictive_analysis.Ingestion.Coverage.{GapSeverity, GapCandidate, CompletenessStatus}
use predictive_analysis.Ingestion.Coverage.Evaluation.{CoverageEvaluation}
use predictive_analysis.Quality.Kinds.{
  QualityIssueType, QualityRuleScope, QualitySeverity, issue_value, scope_value,
}

pub data ArrivalStatus : Type 0 where
  expected received late missing unexpected : ArrivalStatus

-- `_GAP_ORDER`
abbrev pub gap_order : GapSeverity → ℕ
gap_order GapSeverity.minor = 0
gap_order GapSeverity.moderate = 1
gap_order GapSeverity.major = 2
gap_order GapSeverity.critical = 3

pub record DailyFinding : Type 0 where
  pub rule_code : QualityIssueType
  pub severity : QualitySeverity
  pub charger_id : Text
  pub business_date : ℕ
  pub occurrence_count : ℕ
  pub entity_reference : Option Text
  pub event_time : Option ℕ
  pub scope : QualityRuleScope

pub record DailyQualitySeverities : Type 0 where
  pub missing_charger_data : Text
  pub late_file : Text
  pub partial_day : Text
  pub severely_incomplete_day : Text
  pub telemetry_gap : Text
  pub abnormal_sampling_interval : Text
  pub missing_expected_connector : Text
  pub missing_expected_smr : Text
  pub multiple_files_same_charger_day : Text
  pub overlapping_file_coverage : Text
  pub event_date_filename_mismatch : Text
  pub gap_min_severity : Text

-- The defaults of DailyQualitySeverities.
abbrev pub default_severities : DailyQualitySeverities
default_severities = record {
  missing_charger_data = codes "ERROR";
  late_file = codes "WARNING";
  partial_day = codes "WARNING";
  severely_incomplete_day = codes "ERROR";
  telemetry_gap = codes "WARNING";
  abnormal_sampling_interval = codes "WARNING";
  missing_expected_connector = codes "WARNING";
  missing_expected_smr = codes "WARNING";
  multiple_files_same_charger_day = codes "INFO";
  overlapping_file_coverage = codes "INFO";
  event_date_filename_mismatch = codes "WARNING";
  gap_min_severity = codes "MODERATE";
}

-- The business date is a field of the source's evaluation.
pub record ChargerDayContext : Type 0 where
  pub evaluation : CoverageEvaluation
  pub business_date : ℕ
  pub arrival_status : ArrivalStatus
  pub expected_connectors : Option ℕ
  pub expected_smrs : Option ℕ
  pub filename_date_mismatches : List (Text × ℕ)

abbrev upper_code : ℕ → ℕ
upper_code c = if leb 97 c && leb c 122 then c - 32 else c

abbrev upper : Text → Text
upper t = map upper_code t

-- `severity_of`, of the configured text.
unfoldable pub severity_of : Text → QualitySeverity
severity_of raw =
    if upper raw == codes "INFO"
    then QualitySeverity.info
    else if upper raw == codes "ERROR"
    then QualitySeverity.error
    else if upper raw == codes "CRITICAL"
    then QualitySeverity.critical
    else QualitySeverity.warning

-- `_parse_gap_severity`
unfoldable pub parse_gap_severity : Text → GapSeverity
parse_gap_severity raw =
    if upper raw == codes "MINOR"
    then GapSeverity.minor
    else if upper raw == codes "MAJOR"
    then GapSeverity.major
    else if upper raw == codes "CRITICAL"
    then GapSeverity.critical
    else GapSeverity.moderate

abbrev pub daily : ChargerDayContext → QualityIssueType → QualitySeverity → ℕ → DailyFinding
daily ctx code severity count = record {
  rule_code = code;
  severity = severity;
  charger_id = codes ctx.evaluation.charger_id;
  business_date = ctx.business_date;
  occurrence_count = count;
  entity_reference = none;
  event_time = none;
  scope = QualityRuleScope.charger_day;
}

abbrev pub is_missing : ArrivalStatus → Bool
is_missing ArrivalStatus.missing = true
is_missing status = false

abbrev pub is_late_status : ArrivalStatus → Bool
is_late_status ArrivalStatus.late = true
is_late_status status = false

abbrev pub has_some : {A : Type 0} → Option A → Bool
has_some none = false
has_some (some _) = true

-- `has_data`
abbrev pub has_data : CoverageEvaluation → Bool
has_data ev = ltb 0 ev.unique_timestamp_count
