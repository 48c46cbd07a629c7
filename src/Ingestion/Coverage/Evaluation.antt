-- ===== src/Ingestion/Coverage/Evaluation.antt =====
-- `evaluate_charger_day`, `_interval_stats`, `_primary_file` and `is_late` of
-- pipelines/ingestion/coverage.py. The length of a day is above zero in every policy; with zero the
-- source raises a division error, where the model's fraction has the denominator 0.
use predictive_analysis.Common.{
  ℕ, ◌+◌, ◌-◌, ◌*◌, ◌/◌, ◌%◌, min, max, Bool, true, false, Option, none, some, List, [], ◌∷◌, ◌++◌,
  String, ◌&&◌, ◌||◌, leb, ltb, eqb, if◌then◌else◌, length, distinct, get_elem?, nat_eq, string_eq,
}
use predictive_analysis.Common.Sorting.{sort_by}
use predictive_analysis.Ingestion.Coverage.{
  CoveragePolicy, FileContribution, Fraction, GapCandidate, CompletenessStatus, micros,
  classify_completeness, detect_gaps, count_files, day_timestamps, count_overlaps, first_or,
  last_or, span_of, total_gap, largest_gap, percentage,
}

-- The positive differences of consecutive timestamps.
abbrev deltas_from : ℕ → List ℕ → List ℕ
deltas_from earlier [] = []
deltas_from earlier (later ∷ rest) =
    let deltas = deltas_from later rest in
    if ltb 0 (later - earlier) then (later - earlier) ∷ deltas else deltas

abbrev deltas_of : List ℕ → List ℕ
deltas_of [] = []
deltas_of (first ∷ rest) = deltas_from first rest

-- `int(round(0.95 * m))`: a half is rounded to the even neighbour.
abbrev p95_index : ℕ → ℕ
p95_index m =
    let q = 95 * m / 100 in
    let r = 95 * m % 100 in if ltb 50 r || eqb r 50 && eqb (q % 2) 1 then q + 1 else q

abbrev at_or_zero : List ℕ → ℕ → ℕ
at_or_zero ts i = elim (get_elem? ts i) [ none ↦ 0 | some t ↦ t ]

-- The median is twice its value, so that it is a whole number.
pub record IntervalStats : Type 0 where
  pub median_twice : ℕ
  pub p95 : ℕ
  pub minimum : ℕ
  pub maximum : ℕ

abbrev stats_of : List ℕ → Option IntervalStats
stats_of [] = none
stats_of (d ∷ ds) =
    let n = length (d ∷ ds) in
    some (record {
      median_twice = at_or_zero (d ∷ ds) ((n - 1) / 2) + at_or_zero (d ∷ ds) (n / 2);
      p95 = at_or_zero (d ∷ ds) (max 0 (min (n - 1) (p95_index (n - 1))));
      minimum = d;
      maximum = last_or d ds;
    })

unfoldable pub interval_stats : List ℕ → Option IntervalStats
interval_stats timestamps = stats_of (sort_by leb (deltas_of timestamps))

-- The median is off the expected interval by more than the tolerance.
abbrev cadence_is_off : CoveragePolicy → Option IntervalStats → Bool
cadence_is_off p none = false
cadence_is_off p (some s) =
    let expected = 2 * micros p.expected_interval_seconds in
    ltb 0 p.expected_interval_seconds
    && (ltb (s.median_twice * 1000) (expected * (1000 - p.cadence_deviation_tolerance))
        || ltb (expected * (1000 + p.cadence_deviation_tolerance)) (s.median_twice * 1000))

abbrev is_better : Option String → ℕ → ℕ → Bool
is_better none most count = true
is_better (some _) most count = ltb most count

-- One turn of `_primary_file`: the best file so far, with its number of distinct timestamps.
abbrev choose : Option String → ℕ → Option String × ℕ → Option String × ℕ
choose none count best = best
choose (some file) count (best, most) =
    if is_better best most count then (some file, count) else (best, most)

-- `_primary_file`: of the files with an identity, the first with the most distinct timestamps.
unfoldable pub primary_from : Option String × ℕ → List FileContribution → Option String × ℕ
primary_from best [] = best
primary_from best (item ∷ items) =
    primary_from (choose item.telemetry_file_id (length (distinct item.timestamps)) best) items

abbrev sum_of : (FileContribution → ℕ) → List FileContribution → ℕ
sum_of f [] = 0
sum_of f (item ∷ items) = f item + sum_of f items

abbrev joined : (FileContribution → List String) → List FileContribution → List String
joined f [] = []
joined f (item ∷ items) = f item ++ joined f items

abbrev known_of : (FileContribution → Option ℕ) → List FileContribution → List ℕ
known_of f [] = []
known_of f (item ∷ items) = elim (f item) [
  | none ↦ known_of f items
  | some v ↦ v ∷ known_of f items
]

abbrev least? : List ℕ → Option ℕ
least? [] = none
least? (t ∷ ts) = some (elim (least? ts) [ none ↦ t | some m ↦ min t m ])

abbrev first? : List ℕ → Option ℕ
first? [] = none
first? (t ∷ ts) = some t

abbrev sum : List ℕ → ℕ
sum [] = 0
sum (n ∷ ns) = n + sum ns

abbrev mean? : List ℕ → Option Fraction
mean? [] = none
mean? (n ∷ ns) = some (record { numerator = sum (n ∷ ns); denominator = length (n ∷ ns) })

pub record CoverageEvaluation : Type 0 where
  pub charger_id : String
  pub file_count : ℕ
  pub primary_telemetry_file_id : Option String
  pub first_event_at : Option ℕ
  pub last_event_at : Option ℕ
  pub unique_timestamp_count : ℕ
  pub expected_timestamp_count : ℕ
  pub observed_intervals : Option IntervalStats
  pub coverage_seconds : ℕ
  pub span_coverage_percentage : Fraction
  pub sample_coverage_percentage : Fraction
  pub gap_adjusted_coverage_percentage : Fraction
  pub gaps : List GapCandidate
  pub gap_count : ℕ
  pub largest_gap_seconds : ℕ
  pub total_gap_seconds : ℕ
  pub leading_missing_seconds : ℕ
  pub trailing_missing_seconds : ℕ
  pub connectors_detected : List String
  pub smrs_detected : List String
  pub duplicate_timestamp_count : ℕ
  pub logical_collision_count : ℕ
  pub overlapping_timestamp_count : ℕ
  pub duplicate_file_count : ℕ
  pub completeness_status : CompletenessStatus
  pub cadence_is_abnormal : Bool
  pub first_received_at : Option ℕ
  pub quality_score : Option Fraction

abbrev seconds_if_any : Option ℕ → ℕ → ℕ
seconds_if_any none time = 0
seconds_if_any (some _) time = time / 1000000

unfoldable pub evaluate_charger_day :
    String → ℕ → ℕ → List FileContribution → CoveragePolicy → CoverageEvaluation
unfolding detect_gaps classify_completeness interval_stats primary_from day_timestamps
evaluate_charger_day charger_id day_start day_end items p =
    let timestamps = day_timestamps day_start day_end items in
    let expected = max 1 (p.day_seconds / max p.expected_interval_seconds 1) in
    let unique = length timestamps in
    let first = first? timestamps in
    let gaps = detect_gaps p timestamps in
    let sample = percentage unique expected in
    record {
      charger_id = charger_id;
      file_count = length items;
      primary_telemetry_file_id = (primary_from (none, 0) items).0;
      first_event_at = first;
      last_event_at = elim first [ none ↦ none | some t ↦ some (last_or t timestamps) ];
      unique_timestamp_count = unique;
      expected_timestamp_count = expected;
      observed_intervals = interval_stats timestamps;
      coverage_seconds = span_of timestamps;
      span_coverage_percentage = percentage (span_of timestamps) p.day_seconds;
      sample_coverage_percentage = sample;
      gap_adjusted_coverage_percentage =
          percentage (span_of timestamps - total_gap gaps) p.day_seconds;
      gaps = gaps;
      gap_count = length gaps;
      largest_gap_seconds = largest_gap gaps;
      total_gap_seconds = total_gap gaps;
      leading_missing_seconds = seconds_if_any first (first_or 0 timestamps - day_start);
      trailing_missing_seconds = seconds_if_any first (day_end - last_or 0 timestamps);
      connectors_detected = distinct (joined (λ item. item.connectors) items);
      smrs_detected = distinct (joined (λ item. item.smrs) items);
      duplicate_timestamp_count = sum_of (λ item. item.duplicate_timestamp_count) items;
      logical_collision_count = sum_of (λ item. item.logical_collision_groups) items;
      overlapping_timestamp_count = count_overlaps (count_files day_start day_end items []);
      duplicate_file_count =
          sum_of (λ item. if ltb 0 item.exact_duplicate_rows then 1 else 0) items;
      completeness_status = classify_completeness p sample (ltb 0 unique);
      cadence_is_abnormal = cadence_is_off p (interval_stats timestamps);
      first_received_at = least? (known_of (λ item. item.received_at) items);
      quality_score = mean? (known_of (λ item. item.quality_score) items);
    }

-- `is_late`: whether the file is late, and by how many seconds.
unfoldable pub is_late : ℕ → Option ℕ → CoveragePolicy → Bool × Option ℕ
is_late day_end none p = (false, none)
is_late day_end (some received) p =
    let cutoff = day_end + micros (p.late_grace_hours * 3600) in
    if leb received cutoff then (false, some 0) else (true, some ((received - cutoff) / 1000000))
