-- ===== src/History/Gaps.antt =====
-- pipelines/historical/gap_detector.py and eligibility_evaluator.py: the gaps in the times of a charger,
-- and whether its history is enough for research. A duration is in seconds, an expected interval in
-- half seconds, and a multiplier in tenths.
pub mod Bounds
pub mod Neighbours
use predictive_analysis.Common.{
  ℕ, zero, suc, ◌+◌, ◌-◌, ◌*◌, ◌/◌, Bool, true, false, ◌&&◌, ◌||◌, not, Option, none, some, List,
  [], ◌∷◌, ◌++◌, if◌then◌else◌, ltb, leb, eqb, max, length, map,
}
use predictive_analysis.History.Sampling.{SamplingProfile, Paired, sorted_times, analyze_sampling}

pub record HistoricalGap : Type 0 where
  pub gap_start : ℕ
  pub gap_end : ℕ
  pub gap_duration_seconds : ℕ
  pub previous_event_time : ℕ
  pub next_event_time : ℕ
  pub expected_interval : Option ℕ

-- The policy of a detector.
pub record GapDetector : Type 0 where
  pub multiplier_tenths : ℕ
  pub min_gap_seconds : ℕ

abbrev pub default_detector : GapDetector
default_detector = record { multiplier_tenths = 25; min_gap_seconds = 180 }

-- `expected_interval_seconds or median_interval_seconds`
abbrev or_median : Option ℕ → Option ℕ → Option ℕ
or_median none median = median
or_median (some zero) median = median
or_median (some (suc n)) median = some (suc n)

-- The gap threshold, in twentieths of a second.
abbrev pub threshold : GapDetector → Option ℕ → ℕ
threshold policy none = 300 * 20
threshold policy (some expected) =
    if ltb 0 expected
    then max (policy.min_gap_seconds * 20) (expected * policy.multiplier_tenths)
    else 300 * 20

-- `for i in range(1, len(sorted_times))`; neighbours of a sorted list have no negative duration.
abbrev pub gaps_over : ℕ → Option ℕ → List ℕ → List HistoricalGap
gaps_over limit expected [] = []
gaps_over limit expected (prev ∷ []) = []
gaps_over limit expected (prev ∷ (curr ∷ times)) =
    let rest = gaps_over limit expected (curr ∷ times) in
    if ltb limit ((curr - prev) * 20)
    then record {
      gap_start = prev;
      gap_end = curr;
      gap_duration_seconds = curr - prev;
      previous_event_time = prev;
      next_event_time = curr;
      expected_interval = expected;
    }
      ∷ rest
    else rest

-- `detect_gaps`, with the profile of the times or a given one.
abbrev pub profile_or : Option SamplingProfile → List Paired → SamplingProfile
profile_or none paired = analyze_sampling paired
profile_or (some profile) paired = profile

abbrev pub expected_for : SamplingProfile → Option ℕ
expected_for profile = or_median profile.expected_interval profile.median_interval

unfoldable pub detect_gaps : GapDetector → List Paired → Option SamplingProfile → List HistoricalGap
detect_gaps policy paired profile =
    let expected = expected_for (profile_or profile paired) in
    gaps_over (threshold policy expected) expected (sorted_times paired)

abbrev pub total_duration : List HistoricalGap → ℕ
total_duration [] = 0
total_duration (g ∷ gaps) = g.gap_duration_seconds + total_duration gaps

abbrev largest_duration : List HistoricalGap → ℕ
largest_duration [] = 0
largest_duration (g ∷ gaps) = max g.gap_duration_seconds (largest_duration gaps)

-- The reasons against a charger's history, in the order in which they are given.
pub data Reason : Type 0 where
  single_observation insufficient_depth insufficient_observations excessive_gaps : Reason

pub record ResearchEligibility : Type 0 where
  pub history_days : ℕ
  pub observation_count : ℕ
  pub median_sampling_interval : Option ℕ
  pub largest_gap_seconds : Option ℕ
  pub gap_count : ℕ
  pub signal_count : ℕ
  pub pattern_research_ready : Bool
  pub reasons : List Reason

abbrev when : Bool → Reason → List Reason → List Reason
when test reason rest = if test then reason ∷ rest else rest

-- `active_days or max(1, int(coverage // 86400) + 1)`
abbrev pub history_days_of : ℕ → ℕ → ℕ
history_days_of zero coverage = max 1 (coverage / 86400 + 1)
history_days_of (suc n) coverage = suc n

abbrev no_reasons : List Reason → Bool
no_reasons [] = true
no_reasons (_ ∷ _) = false

abbrev pub reasons_of : ℕ → ℕ → ℕ → ℕ → List Reason
reasons_of days observations coverage unobserved = when (ltb days 7) Reason.insufficient_depth (
    when (ltb observations 100) Reason.insufficient_observations
      (when (ltb 0 coverage && ltb (coverage * 35) (unobserved * 100)) Reason.excessive_gaps []))

-- `active_days or (1 if observation_count == 1 else 0)`
abbrev few_days : ℕ → ℕ → ℕ
few_days zero observations = if eqb observations 1 then 1 else 0
few_days (suc n) observations = suc n

unfoldable pub evaluate_eligibility :
    SamplingProfile → List HistoricalGap → ℕ → ℕ → ResearchEligibility
evaluate_eligibility profile gaps signal_count active_days =
    let observations = profile.observation_count in
    let days = history_days_of active_days profile.coverage_duration_seconds in
    let largest = largest_duration gaps in
    let reasons =
      reasons_of days observations profile.coverage_duration_seconds (total_duration gaps) in
    if leb observations 1
    then record {
      history_days = few_days active_days observations;
      observation_count = observations;
      median_sampling_interval = none;
      largest_gap_seconds = none;
      gap_count = 0;
      signal_count = signal_count;
      pattern_research_ready = false;
      reasons = Reason.single_observation ∷ [];
    }
    else record {
      history_days = days;
      observation_count = observations;
      median_sampling_interval = profile.median_interval;
      largest_gap_seconds = if ltb 0 largest then some largest else none;
      gap_count = length gaps;
      signal_count = signal_count;
      pattern_research_ready = no_reasons reasons;
      reasons = reasons;
    }
