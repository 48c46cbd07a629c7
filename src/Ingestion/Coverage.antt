-- ===== src/Ingestion/Coverage.antt =====
-- pipelines/ingestion/coverage.py: coverage, cadence and gaps of a charger-day. Times are in
-- microseconds; a percentage is an exact fraction, which the source rounds to three places; the
-- bounds of the business date, which the time zone database gives, are arguments.
pub mod Union
pub mod Gaps
pub mod Evaluation
use predictive_analysis.Common.{
  ℕ, ◌+◌, ◌-◌, ◌*◌, ◌/◌, ◌%◌, min, max, Bool, true, false, Option, none, some, List, [], ◌∷◌, ◌++◌,
  String, ◌&&◌, ◌||◌, leb, ltb, eqb, if◌then◌else◌, length, select, distinct, last?, get_elem?,
  nat_eq, string_eq,
}
use predictive_analysis.Common.Dict.{Dict, get_or, put, keys}
use predictive_analysis.Common.Sorting.{sort_by}

pub data GapSeverity : Type 0 where
  minor moderate major critical : GapSeverity

pub data CompletenessStatus : Type 0 where
  complete partial severely_incomplete no_data unknown : CompletenessStatus

-- A value of the source's floating point, as an exact quotient.
pub record Fraction : Type 0 where
  pub numerator : ℕ
  pub denominator : ℕ

-- The multiplier, the percentages and the tolerance are in thousandths.
pub record CoveragePolicy : Type 0 where
  pub expected_interval_seconds : ℕ
  pub day_seconds : ℕ
  pub gap_threshold_multiplier : ℕ
  pub gap_moderate_seconds : ℕ
  pub gap_major_seconds : ℕ
  pub gap_critical_seconds : ℕ
  pub complete_min_pct : ℕ
  pub partial_min_pct : ℕ
  pub late_grace_hours : ℕ
  pub cadence_deviation_tolerance : ℕ

abbrev pub micros : ℕ → ℕ
micros seconds = seconds * 1000000

-- `gap_threshold_seconds`, in microseconds.
abbrev pub gap_threshold : CoveragePolicy → ℕ
gap_threshold p = p.expected_interval_seconds * p.gap_threshold_multiplier * 1000

unfoldable pub classify_gap : CoveragePolicy → ℕ → GapSeverity
classify_gap p duration =
    if leb (micros p.gap_critical_seconds) duration
    then critical
    else if leb (micros p.gap_major_seconds) duration
    then major
    else if leb (micros p.gap_moderate_seconds) duration
    then moderate
    else minor

-- `coverage_pct >= pct`
abbrev reaches : Fraction → ℕ → Bool
reaches f pct = leb (pct * f.denominator) (f.numerator * 1000)

unfoldable pub classify_completeness : CoveragePolicy → Fraction → Bool → CompletenessStatus
classify_completeness p coverage has_data =
    if has_data
    then if reaches coverage p.complete_min_pct
      then complete
      else if reaches coverage p.partial_min_pct
      then partial
      else severely_incomplete
    else no_data

pub record FileContribution : Type 0 where
  pub telemetry_file_id : Option String
  pub timestamps : List ℕ
  pub received_at : Option ℕ
  pub connectors : List String
  pub smrs : List String
  pub quality_score : Option ℕ
  pub exact_duplicate_rows : ℕ
  pub logical_collision_groups : ℕ
  pub duplicate_timestamp_count : ℕ

pub record GapCandidate : Type 0 where
  pub start_event_at : ℕ
  pub end_event_at : ℕ
  pub duration_seconds : ℕ
  pub expected_interval_seconds : ℕ
  pub estimated_missing_samples : ℕ
  pub severity : GapSeverity

-- `max(0, int(duration // interval) - 1) if interval > 0 else 0`
abbrev missing_samples : ℕ → ℕ → ℕ
missing_samples duration interval = if ltb 0 interval then duration / micros interval - 1 else 0

unfoldable pub gap_between : CoveragePolicy → ℕ → ℕ → GapCandidate
unfolding classify_gap
gap_between p earlier later = record {
  start_event_at = earlier;
  end_event_at = later;
  duration_seconds = (later - earlier) / 1000000;
  expected_interval_seconds = p.expected_interval_seconds;
  estimated_missing_samples = missing_samples (later - earlier) p.expected_interval_seconds;
  severity = classify_gap p (later - earlier);
}

-- `_detect_gaps`, from a timestamp and those that follow it.
unfoldable pub gaps_from : CoveragePolicy → ℕ → List ℕ → List GapCandidate
unfolding gap_between
gaps_from p earlier [] = []
gaps_from p earlier (later ∷ rest) =
    let gaps = gaps_from p later rest in
    if leb (later - earlier) (gap_threshold p) then gaps else gap_between p earlier later ∷ gaps

unfoldable pub detect_gaps : CoveragePolicy → List ℕ → List GapCandidate
unfolding gaps_from
detect_gaps p [] = []
detect_gaps p (first ∷ rest) = gaps_from p first rest

abbrev pub in_day : ℕ → ℕ → ℕ → Bool
in_day day_start day_end t = leb day_start t && ltb t day_end

-- `seen[stamp] = seen.get(stamp, 0) + 1`, over the stamps of one file.
abbrev pub count_stamps : List ℕ → Dict ℕ ℕ → Dict ℕ ℕ
count_stamps [] seen = seen
count_stamps (t ∷ stamps) seen = count_stamps stamps (put t (get_or t 0 seen + 1) seen)

-- The stamps of every file, each with the number of the files that hold it.
unfoldable pub count_files : ℕ → ℕ → List FileContribution → Dict ℕ ℕ → Dict ℕ ℕ
count_files day_start day_end [] seen = seen
count_files day_start day_end (item ∷ items) seen =
    count_files day_start day_end items
      (count_stamps (distinct (select (in_day day_start day_end) item.timestamps)) seen)

-- `timestamps = sorted(seen)`
unfoldable pub day_timestamps : ℕ → ℕ → List FileContribution → List ℕ
unfolding count_files
day_timestamps day_start day_end items = sort_by leb (keys (count_files day_start day_end items []))

abbrev count_overlaps : Dict ℕ ℕ → ℕ
count_overlaps [] = 0
count_overlaps ((t, n) ∷ seen) = (if ltb 1 n then 1 else 0) + count_overlaps seen

abbrev pub first_or : ℕ → List ℕ → ℕ
first_or d [] = d
first_or d (t ∷ ts) = t

abbrev pub last_or : ℕ → List ℕ → ℕ
last_or d [] = d
last_or d (t ∷ ts) = last_or t ts

-- `int((last_event - first_event).total_seconds())`, 0 with no data.
abbrev pub span_of : List ℕ → ℕ
span_of ts = (last_or 0 ts - first_or 0 ts) / 1000000

abbrev pub total_gap : List GapCandidate → ℕ
total_gap [] = 0
total_gap (g ∷ gaps) = g.duration_seconds + total_gap gaps

abbrev largest_gap : List GapCandidate → ℕ
largest_gap [] = 0
largest_gap (g ∷ gaps) = max g.duration_seconds (largest_gap gaps)

-- `min(100.0, 100.0 * part / whole)`
abbrev pub percentage : ℕ → ℕ → Fraction
percentage part whole = record { numerator = min (100 * part) (100 * whole); denominator = whole }
