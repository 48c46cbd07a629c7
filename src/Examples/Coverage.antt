-- ===== src/Examples/Coverage.antt =====
-- A charger-day with two overlapping files and a gap.
use predictive_analysis.Common.{
  String, ℕ, ◌≤◌, ◌≡◌, refl, true, none, some, List, [], ◌∷◌, contains, nat_eq,
}
use predictive_analysis.Common.Sorting.{sort_by}
use predictive_analysis.Ingestion.Coverage.{
  CoveragePolicy, FileContribution, gaps_from, count_files, day_timestamps, partial,
}
use predictive_analysis.Ingestion.Coverage.Gaps.{total_gap-evaluate_charger_day}
use predictive_analysis.Ingestion.Coverage.Union.{is_observed, day_timestamps_iff}
use predictive_analysis.Ingestion.Coverage.Evaluation.{evaluate_charger_day, is_late}

-- Samples are expected every second of a day of twenty seconds.
abbrev pub policy : CoveragePolicy
policy = record {
  expected_interval_seconds = 1;
  day_seconds = 20;
  gap_threshold_multiplier = 3000;
  gap_moderate_seconds = 5;
  gap_major_seconds = 10;
  gap_critical_seconds = 15;
  complete_min_pct = 95000;
  partial_min_pct = 20000;
  late_grace_hours = 1;
  cadence_deviation_tolerance = 500;
}

abbrev file : String → List ℕ → FileContribution
file name stamps = record {
  telemetry_file_id = some name;
  timestamps = stamps;
  received_at = some 30000000;
  connectors = "1" ∷ [];
  smrs = [];
  quality_score = none;
  exact_duplicate_rows = 0;
  logical_collision_groups = 0;
  duplicate_timestamp_count = 0;
}

abbrev pub files : List FileContribution
files =
    file "a" (1000000 ∷ 2000000 ∷ 2000000 ∷ 25000000 ∷ [])
    ∷ file "b" (2000000 ∷ 9000000 ∷ 10000000 ∷ [])
    ∷ []

evaluate_files :
    let e = evaluate_charger_day "EX1" 0 20000000 files policy in
    (e.unique_timestamp_count ≡ 4)
    × (e.overlapping_timestamp_count ≡ 1)
    × (e.gap_count ≡ 1)
    × (e.total_gap_seconds ≡ 7)
    × (e.coverage_seconds ≡ 9)
    × (e.completeness_status ≡ partial)
    × (e.primary_telemetry_file_id ≡ some "a")
unfolding evaluate_charger_day sort_by count_files gaps_from
evaluate_files = (refl, refl, refl, refl, refl, refl, refl)

late_file : is_late 20000000 (some 3700000000) policy ≡ (true, some 80)
unfolding is_late
late_file = refl

total_gap-evaluate_charger_day_example :
    let e = evaluate_charger_day "EX1" 0 20000000 files policy in
    e.total_gap_seconds ≤ e.coverage_seconds
total_gap-evaluate_charger_day_example =
    total_gap-evaluate_charger_day "EX1" 0 20000000 files policy

day_timestamps_iff_example :
    contains (day_timestamps 0 20000000 files) 9000000 ≡ is_observed 0 20000000 files 9000000
day_timestamps_iff_example = day_timestamps_iff 0 20000000 files 9000000
