-- ===== src/Events/Transitions.antt =====
-- pipelines/events/state_transition_detector.py: the changes of a discrete status field.
use mathlib.Core.Option
use predictive_analysis.Common.{
  ℕ, ◌≡◌, ◌≢◌, refl, ◌∙◌, sym, Bool, true, false, Option, none, some, List, [], ◌∷◌, String, ◌||◌,
  ◌&&◌, ◌==◌, string_eq, leb, ltb, eqb, if◌then◌else◌, All, is_some, inl, inr, Bool-cases, arith,
  length, ap,
}
use predictive_analysis.Common.Sorting.{sort_by, All-sort_by, length-sort_by}
use predictive_analysis.Common.Text.{strip}

pub record StateObservation : Type 0 where
  pub event_time : ℕ
  pub frame_sequence : ℕ
  pub state_val : Option String
  pub frame_id : Option String

-- What the charger, the component and the field of a call are.
pub record StateField : Type 0 where
  pub charger_id : String
  pub component_type : String
  pub component_id : Option ℕ
  pub state_field : String

pub record ReconstructedStateTransition : Type 0 where
  pub field : StateField
  pub from_state : Option String
  pub to_state : String
  pub transition_time : ℕ
  pub frame_sequence : ℕ
  pub frame_id : Option String

abbrev pub state_le : StateObservation → StateObservation → Bool
state_le a b =
    ltb a.event_time b.event_time
    || eqb a.event_time b.event_time && leb a.frame_sequence b.frame_sequence

-- `obs.state_val.strip() if obs.state_val is not None else None`
abbrev pub reading : StateObservation → Option String
reading o = Option.map strip o.state_val

abbrev same_text : String → Option String → Bool
same_text v none = false
same_text v (some w) = v == w

module _ (field : StateField) where
  abbrev transition_to : StateObservation → Option String → String → ReconstructedStateTransition
  transition_to curr before v = record {
    field = field;
    from_state = before;
    to_state = v;
    transition_time = curr.event_time;
    frame_sequence = curr.frame_sequence;
    frame_id = curr.frame_id;
  }

  -- The transition of one turn, if there is one, before those of the later turns.
  abbrev cons_transition :
      StateObservation
      → Option String
      → Option String
      → List ReconstructedStateTransition
      → List ReconstructedStateTransition
  cons_transition curr before none later = later
  cons_transition curr before (some v) later =
      if same_text v before then later else transition_to curr before v ∷ later

  -- `for curr in ordered[1:]`, with the observation before.
  unfoldable pub transitions_after :
      StateObservation → List StateObservation → List ReconstructedStateTransition
  transitions_after prev [] = []
  transitions_after prev (curr ∷ rest) =
      cons_transition curr (reading prev) (reading curr) (transitions_after curr rest)

  abbrev over_ordered : List StateObservation → List ReconstructedStateTransition
  over_ordered [] = []
  over_ordered (first ∷ rest) = transitions_after first rest

  unfoldable pub detect_transitions : List StateObservation → List ReconstructedStateTransition
  unfolding transitions_after
  detect_transitions observations =
      if ltb (length observations) 2 then [] else over_ordered (sort_by state_le observations)

-- Transitions that lead from one state to another: each starts where the one before ended, and
-- ends in another state.
abbrev pub Leads : Option String → List ReconstructedStateTransition → Option String → Type 0
Leads start [] end = start ≡ end
Leads start (t ∷ later) end =
    (t.from_state ≡ start) × (t.from_state ≢ some t.to_state) × Leads (some t.to_state) later end

-- The last of the observations.
abbrev pub last_of : StateObservation → List StateObservation → StateObservation
last_of o [] = o
last_of o (p ∷ later) = last_of p later

module _ (field : StateField) where
  cons-Leads :
      (curr : StateObservation) (before now end : Option String)
      (later : List ReconstructedStateTransition)
      → is_some now ≡ true
      → Leads now later end
      → Leads before (cons_transition field curr before now later) end
  cons-Leads curr before none end later s h = cc
  cons-Leads curr none (some v) end later s h = (refl, λ e. cc, h)
  cons-Leads curr (some w) (some v) end later s h = elim (Bool-cases (v == w)) [
    | inl p ↦ rw p (rw ((string_eq.same_iff v w).0 p) at h)
    | inr p ↦ rw p (refl, λ e. ground (arith, string_eq.same_iff v w), h)
  ]

  transitions_after-Leads :
      (prev : StateObservation) (rest : List StateObservation)
      → All (λ o. is_some (reading o) ≡ true) rest
      → Leads (reading prev) (transitions_after field prev rest) (reading (last_of prev rest))
  unfolding transitions_after
  transitions_after-Leads prev [] h = refl
  transitions_after-Leads prev (curr ∷ rest) h =
      cons-Leads curr (reading prev) (reading curr) (reading (last_of curr rest))
        (transitions_after field curr rest) h.0 (transitions_after-Leads curr rest h.1)

  over_ordered-Leads :
      (first : StateObservation) (observations rest : List StateObservation)
      → ltb (length observations) 2 ≡ true
      → length observations ≡ length (first ∷ rest)
      → Leads (reading first) [] (reading (last_of first rest))
  over_ordered-Leads first observations [] h k = refl
  over_ordered-Leads first observations (o ∷ rest) h k = absurd (ground arith)

  -- If every observation has a state, the transitions lead from the state of the first observation
  -- in time to the state of the last one: each starts from the state where the one before ended and
  -- goes to another state.
  pub detect_transitions-Leads :
      (observations : List StateObservation) (first : StateObservation)
      (rest : List StateObservation)
      → sort_by state_le observations ≡ first ∷ rest
      → All (λ o. is_some (reading o) ≡ true) observations
      → Leads (reading first) (detect_transitions field observations) (reading (last_of first rest))
  unfolding detect_transitions
  detect_transitions-Leads observations first rest e h =
      let ordered : All (λ o. is_some (reading o) ≡ true) (sort_by state_le observations) =
        All-sort_by state_le (λ o. is_some (reading o) ≡ true) observations h in
      let all : All (λ o. is_some (reading o) ≡ true) (first ∷ rest) = rw e at ordered in
      elim (Bool-cases (ltb (length observations) 2)) [
        | inl p ↦ rw p (
            over_ordered-Leads first observations rest p
              (sym (length-sort_by state_le observations) ∙ ap length e))
        | inr p ↦ rw (p, e) (transitions_after-Leads first rest all.1)
      ]
