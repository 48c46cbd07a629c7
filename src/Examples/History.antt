-- ===== src/Examples/History.antt =====
-- A counter that is reset, and a charger with a gap.
use predictive_analysis.Common.{
  any, ℕ, ◌*◌, ◌≤◌, true, Option, none, some, List, [], ◌∷◌, ◌≡◌, ◌↔◌, refl, length, All, nat_eq,
}
use predictive_analysis.Common.Dict.{get}
use predictive_analysis.Common.Sorting.{sort_by}
use predictive_analysis.History.Counters.{Observation, observation_le, analyze}
use predictive_analysis.History.Counters.Steps.{analyze-Describes, Describes, values_of}
use predictive_analysis.History.Sampling.{Paired, analyze_sampling}
use predictive_analysis.History.Gaps.{
  default_detector, detect_gaps, evaluate_eligibility, total_duration, threshold, expected_for,
  profile_or, history_days_of,
}
use predictive_analysis.History.Gaps.Bounds.{IsGapOver, evaluate_eligibility-ready}
use predictive_analysis.History.Gaps.Neighbours.{detect_gaps-apart, runs, apart, gap_times}
use predictive_analysis.History.Presence.{ComponentPresence, Sighting, sighting_le, track_presence}
use predictive_analysis.History.Presence.Intervals.{track_presence-SumsUp, SumsUp, times_of}

abbrev reading : ℕ → Option ℕ → Observation
reading time value = record { event_time = time; frame_sequence = 0; value = value }

abbrev readings : List Observation
readings =
    reading 60 (some 50000)
    ∷ (reading 0 (some 40000) ∷ (reading 120 none ∷ (reading 180 (some 1000) ∷ [])))

-- The fall from 50 to 1 is a reset.
readings_reset : (analyze readings).reset_candidate_count ≡ 1
unfolding analyze sort_by
readings_reset = refl

analyze-Describes_example :
    Describes (values_of (sort_by observation_le readings)) (analyze readings)
    × ((analyze readings).total_observations ≡ length readings)
analyze-Describes_example = analyze-Describes readings

abbrev frames : List Paired
frames = (60, 1) ∷ ((0, 1) ∷ ((60, 2) ∷ ((120, 1) ∷ ((1000, 1) ∷ []))))

-- The median of 60, 60 and 880 seconds is 60, and one interval is a gap.
frames_gap : total_duration (detect_gaps default_detector frames none) ≡ 880
unfolding detect_gaps analyze_sampling sort_by
frames_gap = refl

detect_gaps-apart_example :
    (any (runs 120 1000) (detect_gaps default_detector frames none)
      ≡ apart
          (threshold default_detector (expected_for (profile_or none frames)))
          120
          1000
          (gap_times frames))
    × All
        (IsGapOver (threshold default_detector (expected_for (profile_or none frames))))
        (detect_gaps default_detector frames none)
    × (total_duration (detect_gaps default_detector frames none)
        ≤ (analyze_sampling frames).coverage_duration_seconds)
detect_gaps-apart_example = detect_gaps-apart default_detector frames none 120 1000

evaluate_eligibility-ready_example :
    let profile = analyze_sampling frames in
    let gaps = detect_gaps default_detector frames none in
    ((evaluate_eligibility profile gaps 3 9).pattern_research_ready ≡ true) ↔ (
      (7 ≤ history_days_of 9 profile.coverage_duration_seconds)
      × (100 ≤ profile.observation_count)
      × (total_duration gaps * 100 ≤ profile.coverage_duration_seconds * 35))
evaluate_eligibility-ready_example = evaluate_eligibility-ready default_detector frames 3 9

abbrev sightings : List Sighting
sightings = (1, 50) ∷ ((2, 10) ∷ ((1, 20) ∷ []))

abbrev whole_day : ℕ → ℕ
whole_day time = 0

abbrev first_component : ComponentPresence
first_component = record {
  component_id = 1;
  first_seen = 20;
  last_seen = 50;
  observation_count = 2;
  active_dates = 0 ∷ [];
}

first_component_seen : get 1 (track_presence whole_day sightings) ≡ some first_component
unfolding track_presence sort_by
first_component_seen = refl

track_presence-SumsUp_example :
    SumsUp whole_day (times_of 1 (sort_by sighting_le sightings)) first_component
track_presence-SumsUp_example =
    track_presence-SumsUp whole_day sightings 1 first_component first_component_seen
