-- ===== src/History/Sampling.antt =====
-- pipelines/historical/sampling_analyzer.py: the intervals between the frames of a charger. A time is a
-- number of seconds; a median, which may be half a second, is in half seconds. The decimal fractions of
-- the code are computed exactly.
pub mod Totals
use predictive_analysis.Common.{
  ℕ, zero, suc, ◌+◌, ◌-◌, ◌*◌, ◌/◌, ◌%◌, Bool, true, false, ◌&&◌, ◌||◌, Option, none, some, List,
  [], ◌∷◌, map, if◌then◌else◌, ltb, leb, eqb, length, last?, get_elem?, select, distinct, nat_eq,
}
use predictive_analysis.Common.Sorting.{sort_by}

pub record SamplingProfile : Type 0 where
  pub observation_count : ℕ
  pub distinct_timestamps : ℕ
  pub first_event_time : Option ℕ
  pub last_event_time : Option ℕ
  pub coverage_duration_seconds : ℕ
  pub median_interval : Option ℕ
  pub p05_interval_seconds : Option ℕ
  pub p95_interval_seconds : Option ℕ
  pub min_interval_seconds : Option ℕ
  pub max_interval_seconds : Option ℕ
  pub expected_interval : Option ℕ
  pub same_second_frame_count : ℕ

-- An event time with its frame sequence.
abbrev pub Paired : Type 0
Paired = ℕ × ℕ

abbrev pub paired_le : Paired → Paired → Bool
paired_le a b = ltb a.0 b.0 || eqb a.0 b.0 && leb a.1 b.1

-- `sorted_times`
abbrev pub sorted_times : List Paired → List ℕ
sorted_times paired = map (λ (p : Paired). p.0) (sort_by paired_le paired)

-- The positive deltas between neighbours.
abbrev pub deltas : List ℕ → List ℕ
deltas [] = []
deltas (a ∷ []) = []
deltas (a ∷ (b ∷ times)) =
    let rest = deltas (b ∷ times) in if ltb 0 (b - a) then (b - a) ∷ rest else rest

-- The neighbours in the same second.
abbrev pub same_seconds : List ℕ → ℕ
same_seconds [] = 0
same_seconds (a ∷ []) = 0
same_seconds (a ∷ (b ∷ times)) = (if eqb a b then 1 else 0) + same_seconds (b ∷ times)

abbrev value_or : ℕ → Option ℕ → ℕ
value_or d none = d
value_or d (some n) = n

abbrev pub nth : List ℕ → ℕ → ℕ
nth xs i = value_or 0 (get_elem? xs i)

-- `statistics.median`, in halves.
abbrev median_halves : List ℕ → ℕ
median_halves xs =
    let n = length xs in
    if eqb (n % 2) 1 then nth xs (n / 2) * 2 else nth xs (n / 2 - 1) + nth xs (n / 2)

-- `round(n / d)`, half to even.
abbrev round_half_even : ℕ → ℕ → ℕ
round_half_even n d =
    let q = n / d in
    let twice = n % d * 2 in if ltb twice d then q else if ltb d twice then q + 1 else q + q % 2

-- `median_val * 0.85 <= d <= median_val * 1.15`
abbrev in_cluster : ℕ → ℕ → Bool
in_cluster halves d = leb (halves * 85) (d * 200) && leb (d * 200) (halves * 115)

-- The expected interval, if five deltas at least and four tenths of them lie around the median.
abbrev expected_of : List ℕ → Option ℕ
expected_of sorted_deltas =
    let n = length sorted_deltas in
    let halves = median_halves sorted_deltas in
    if leb 5 n && leb (n * 4) (length (select (in_cluster halves) sorted_deltas) * 10)
    then some halves
    else none

abbrev profile_of : List ℕ → List ℕ → ℕ → SamplingProfile
profile_of times [] coverage = record {
  observation_count = length times;
  distinct_timestamps = length (distinct times);
  first_event_time = get_elem? times 0;
  last_event_time = last? times;
  coverage_duration_seconds = coverage;
  median_interval = none;
  p05_interval_seconds = none;
  p95_interval_seconds = none;
  min_interval_seconds = none;
  max_interval_seconds = none;
  expected_interval = none;
  same_second_frame_count = same_seconds times;
}
profile_of times (d ∷ ds) coverage =
    let sorted_deltas = sort_by leb (d ∷ ds) in
    let last_index = length sorted_deltas - 1 in
    record {
      observation_count = length times;
      distinct_timestamps = length (distinct times);
      first_event_time = get_elem? times 0;
      last_event_time = last? times;
      coverage_duration_seconds = coverage;
      median_interval = some (median_halves sorted_deltas);
      p05_interval_seconds = some (nth sorted_deltas (round_half_even (last_index * 5) 100));
      p95_interval_seconds = some (nth sorted_deltas (round_half_even (last_index * 95) 100));
      min_interval_seconds = get_elem? sorted_deltas 0;
      max_interval_seconds = last? sorted_deltas;
      expected_interval = expected_of sorted_deltas;
      same_second_frame_count = same_seconds times;
    }

-- `last_time - first_time`
abbrev pub coverage_of : List ℕ → ℕ
coverage_of times = value_or 0 (last? times) - value_or 0 (get_elem? times 0)

-- Without an event time the profile is that of no times.
unfoldable pub analyze_sampling : List Paired → SamplingProfile
analyze_sampling paired =
    let times = sorted_times paired in profile_of times (deltas times) (coverage_of times)
