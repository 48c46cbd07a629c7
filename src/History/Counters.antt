-- ===== src/History/Counters.antt =====
-- pipelines/historical/counter_analyzer.py: the steps of a cumulative counter. A value is in
-- thousandths and not negative; a value that is missing or not a number is `none`. A time is in seconds.
pub mod Steps
use predictive_analysis.Common.{
  ℕ, suc, ◌+◌, ◌*◌, Bool, true, false, ◌&&◌, ◌||◌, Option, none, some, List, [], ◌∷◌, ◌++◌,
  if◌then◌else◌, ltb, leb, eqb, length,
}
use predictive_analysis.Common.Integers.{ℤ, minus}
use predictive_analysis.Common.Sorting.{sort_by}

pub data CounterTransitionType : Type 0 where
  unchanged increased decreased reset_candidate initial : CounterTransitionType

pub record Observation : Type 0 where
  pub event_time : ℕ
  pub frame_sequence : ℕ
  pub value : Option ℕ

pub record CounterTransition : Type 0 where
  pub event_time : ℕ
  pub frame_sequence : ℕ
  pub previous_value : Option ℕ
  pub current_value : ℕ
  pub delta : Option ℤ
  pub transition_type : CounterTransitionType

pub record CounterAnalysisReport : Type 0 where
  pub total_observations : ℕ
  pub non_null_observations : ℕ
  pub first_value : Option ℕ
  pub last_value : Option ℕ
  pub net_change : Option ℤ
  pub increase_count : ℕ
  pub unchanged_count : ℕ
  pub decrease_count : ℕ
  pub reset_candidate_count : ℕ
  pub transitions : List CounterTransition

-- `key=lambda x: (x["event_time"], x.get("frame_sequence", 0))`
abbrev pub observation_le : Observation → Observation → Bool
observation_le a b =
    ltb a.event_time b.event_time
    || eqb a.event_time b.event_time && leb a.frame_sequence b.frame_sequence

-- The variables of the loop.
pub record CounterState : Type 0 where
  pub first_val : Option ℕ
  pub last_val : Option ℕ
  pub prev_val : Option ℕ
  pub max_seen : ℕ
  pub non_null : ℕ
  pub increases : ℕ
  pub unchanged : ℕ
  pub decreases : ℕ
  pub resets : ℕ
  pub steps : List CounterTransition

abbrev pub no_values : CounterState
no_values = record {
  first_val = none;
  last_val = none;
  prev_val = none;
  max_seen = 0;
  non_null = 0;
  increases = 0;
  unchanged = 0;
  decreases = 0;
  resets = 0;
  steps = [];
}

abbrev transition_to :
    Observation → Option ℕ → ℕ → Option ℤ → CounterTransitionType → CounterTransition
transition_to obs previous current delta kind = record {
  event_time = obs.event_time;
  frame_sequence = obs.frame_sequence;
  previous_value = previous;
  current_value = current;
  delta = delta;
  transition_type = kind;
}

-- `max_seen > 10.0 and curr_val < max_seen * RESET_CANDIDATE_RATIO`
abbrev is_reset : ℕ → ℕ → Bool
is_reset max_seen current = ltb 10000 max_seen && ltb (current * 2) max_seen

abbrev first_step : Observation → ℕ → CounterState → CounterState
first_step obs current s = record s {
  first_val = some current;
  last_val = some current;
  prev_val = some current;
  max_seen = current;
  non_null = suc s.non_null;
  steps = s.steps ++ transition_to obs none current none CounterTransitionType.initial ∷ [];
}

-- The state after a later value, with the step that it took.
abbrev stepped : Observation → ℕ → ℕ → CounterTransitionType → CounterState → CounterState
stepped obs previous current kind s = record s {
  last_val = some current;
  prev_val = some current;
  non_null = suc s.non_null;
  steps =
      s.steps
      ++ transition_to obs (some previous) current (some (minus current previous)) kind ∷ [];
}

abbrev later_step : Observation → ℕ → ℕ → CounterState → CounterState
later_step obs previous current s =
    if ltb previous current
    then stepped obs previous current CounterTransitionType.increased (record s {
      increases = suc s.increases;
      max_seen = if ltb s.max_seen current then current else s.max_seen;
    })
    else if eqb current previous
    then stepped obs previous current CounterTransitionType.unchanged
        (record s { unchanged = suc s.unchanged })
    else if is_reset s.max_seen current
    then stepped obs previous current CounterTransitionType.reset_candidate
        (record s { decreases = suc s.decreases; resets = suc s.resets })
    else stepped obs previous current CounterTransitionType.decreased
        (record s { decreases = suc s.decreases })

-- The first value sets `prev_val` too.
abbrev value_step : Observation → Option ℕ → ℕ → CounterState → CounterState
value_step obs none current s = first_step obs current s
value_step obs (some previous) current s = later_step obs previous current s

abbrev observe_value : Observation → Option ℕ → CounterState → CounterState
observe_value obs none s = s
observe_value obs (some current) s = value_step obs s.prev_val current s

-- `for obs in sorted_obs`
unfoldable pub observe_all : List Observation → CounterState → CounterState
observe_all [] s = s
observe_all (obs ∷ later) s = observe_all later (observe_value obs obs.value s)

abbrev pub change : Option ℕ → Option ℕ → Option ℤ
change (some first) (some last) = some (minus last first)
change (some first) none = none
change none last = none

abbrev report_of : ℕ → CounterState → CounterAnalysisReport
report_of total s = record {
  total_observations = total;
  non_null_observations = s.non_null;
  first_value = s.first_val;
  last_value = s.last_val;
  net_change = change s.first_val s.last_val;
  increase_count = s.increases;
  unchanged_count = s.unchanged;
  decrease_count = s.decreases;
  reset_candidate_count = s.resets;
  transitions = s.steps;
}

-- Without an observation the loop has no turn, and the report is the empty one.
unfoldable pub analyze : List Observation → CounterAnalysisReport
unfolding observe_all
analyze observations =
    let ordered = sort_by observation_le observations in
    report_of (length ordered) (observe_all ordered no_values)
