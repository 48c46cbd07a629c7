-- ===== src/Events/Sessions/States.antt =====
-- The observations that the sessions take in.
use predictive_analysis.Common.{
  ℕ, ◌+◌, ◌≤◌, Option, none, some, List, [], ◌∷◌, ◌++◌, String, arith, length, length-append,
  select, Bool-cases, inl, inr, ◌≡◌, refl, ◌∙◌, if◌then◌else◌,
}
use predictive_analysis.Common.Sorting.{sort_by, insert_by, length-sort_by}
use predictive_analysis.Events.Models.{TelemetryGapInterval}
use predictive_analysis.Events.Sessions.{
  ConnectorObservation, OpenSession, ReconstructedSession, connector_le, session_id_of,
}
use predictive_analysis.Events.Sessions.Reconstruction.{
  SessionProgress, close_active_session, close_changed, begin_or_accumulate, observe_session,
  observe_sessions, close_last, over_sessions, reconstruct_sessions, is_session_start, id_changed,
  last_observation, accumulate, is_completed_by,
}

-- The observed states of the sessions, counted.
abbrev pub states_of : List ReconstructedSession → ℕ
states_of [] = 0
states_of (s ∷ sessions) = length s.observed_states + states_of sessions

abbrev open_states : Option OpenSession → ℕ
open_states none = 0
open_states (some s) = length s.observed_states

states_of-append :
    (done : List ReconstructedSession) (s : ReconstructedSession)
    → states_of (done ++ s ∷ []) ≡ states_of done + length s.observed_states
states_of-append [] s = omega arith
states_of-append (t ∷ done) s = omega (arith, states_of-append done s)

abbrev start_count : ConnectorObservation → ℕ
start_count o = if is_session_start o then 1 else 0

start_count-le : (o : ConnectorObservation) → start_count o ≤ 1
start_count-le o = elim (Bool-cases (is_session_start o)) [
  | inl p ↦ rw p (omega arith)
  | inr p ↦ rw p (omega arith)
]

abbrev start_total : List ConnectorObservation → ℕ
start_total [] = 0
start_total (o ∷ os) = start_count o + start_total os

start_total-insert_by :
    (o : ConnectorObservation) (os : List ConnectorObservation)
    → start_total (insert_by connector_le o os) ≡ start_count o + start_total os
start_total-insert_by o [] = refl
start_total-insert_by o (p ∷ os) = elim (Bool-cases (connector_le o p)) [
  | inl q ↦ rw q refl
  | inr q ↦ rw q (omega (arith, start_total-insert_by o os))
]

start_total-sort_by :
    (os : List ConnectorObservation)
    → start_total (sort_by connector_le os) ≡ length (select is_session_start os)
unfolding sort_by
start_total-sort_by [] = refl
start_total-sort_by (o ∷ os) =
    let sorted = start_total-insert_by o (sort_by connector_le os) in
    let rest = start_total-sort_by os in
    elim (Bool-cases (is_session_start o)) [
      | inl p ↦ sorted ∙ rw p (omega (arith, rest))
      | inr p ↦ sorted ∙ rw p (omega (arith, rest))
    ]

length-accumulate :
    (o : ConnectorObservation) (s : OpenSession)
    → length (accumulate o s).observed_states ≡ length s.observed_states + 1
length-accumulate o s = length-append s.observed_states _

module _ (charger_id : String) (connector_id : ℕ) (gaps : List TelemetryGapInterval) where
  abbrev counted : SessionProgress → ℕ
  counted p = states_of p.reconstructed + open_states p.active

  counted-close_changed :
      (o : ConnectorObservation) (done : List ReconstructedSession) (active : Option OpenSession)
      → counted (close_changed charger_id connector_id gaps o done active)
        ≡ states_of done + open_states active
  unfolding close_active_session
  counted-close_changed o done none = refl
  counted-close_changed o done (some s) =
      elim (Bool-cases (id_changed (session_id_of o) s.current_session_id)) [
        | inl p ↦
            let closed = close_active_session charger_id connector_id gaps s o.event_time o in
            rw p (omega (arith, states_of-append done closed))
        | inr p ↦ rw p refl
      ]

  counted-begin_or_accumulate :
      (o : ConnectorObservation) (done : List ReconstructedSession) (active : Option OpenSession)
      → (states_of done + open_states active + start_count o
          ≤ counted (begin_or_accumulate charger_id connector_id gaps o done active))
        × (counted (begin_or_accumulate charger_id connector_id gaps o done active)
            ≤ states_of done + open_states active + 1)
  unfolding close_active_session
  counted-begin_or_accumulate o done none = elim (Bool-cases (is_session_start o)) [
    | inl p ↦ rw p (omega arith, omega arith)
    | inr p ↦ rw p (omega arith, omega arith)
  ]
  counted-begin_or_accumulate o done (some s) =
      let more = length-accumulate o s in
      let start_le = start_count-le o in
      elim (Bool-cases (is_completed_by o (accumulate o s))) [
        | inl p ↦
            let closed =
              close_active_session charger_id connector_id gaps (accumulate o s) o.event_time o in
            let total = states_of-append done closed in
            rw p (omega (arith, more, start_le, total), omega (arith, more, total))
        | inr p ↦ rw p (omega (arith, more, start_le), omega (arith, more))
      ]

  counted-observe_session :
      (o : ConnectorObservation) (p : SessionProgress)
      → (counted p + start_count o ≤ counted (observe_session charger_id connector_id gaps o p))
        × (counted (observe_session charger_id connector_id gaps o p) ≤ counted p + 1)
  unfolding observe_session
  counted-observe_session o p =
      let q = close_changed charger_id connector_id gaps o p.reconstructed p.active in
      let same = counted-close_changed o p.reconstructed p.active in
      let bounds = counted-begin_or_accumulate o q.reconstructed q.active in
      (omega (arith, same, bounds.0), omega (arith, same, bounds.1))

  counted-observe_sessions :
      (os : List ConnectorObservation) (p : SessionProgress)
      → (counted p + start_total os ≤ counted (observe_sessions charger_id connector_id gaps os p))
        × (counted (observe_sessions charger_id connector_id gaps os p) ≤ counted p + length os)
  unfolding observe_sessions
  counted-observe_sessions [] p = (omega arith, omega arith)
  counted-observe_sessions (o ∷ os) p =
      let here = counted-observe_session o p in
      let later = counted-observe_sessions os (observe_session charger_id connector_id gaps o p) in
      (omega (arith, here.0, later.0), omega (arith, here.1, later.1))

  counted-close_last :
      (o : ConnectorObservation) (done : List ReconstructedSession) (active : Option OpenSession)
      → states_of (close_last charger_id connector_id gaps o done active)
        ≡ states_of done + open_states active
  unfolding close_active_session
  counted-close_last o done none = omega arith
  counted-close_last o done (some s) =
      states_of-append done (close_active_session charger_id connector_id gaps s o.event_time o)

  over_sessions-states :
      (os : List ConnectorObservation)
      → (start_total os ≤ states_of (over_sessions charger_id connector_id gaps os))
        × (states_of (over_sessions charger_id connector_id gaps os) ≤ length os)
  over_sessions-states [] = (omega arith, omega arith)
  over_sessions-states (o ∷ os) =
      let start : SessionProgress = record { reconstructed = []; active = none } in
      let p = observe_sessions charger_id connector_id gaps (o ∷ os) start in
      let bounds = counted-observe_sessions (o ∷ os) start in
      let closed = counted-close_last (last_observation o os) p.reconstructed p.active in
      (omega (arith, bounds.0, closed), omega (arith, bounds.1, closed))

  -- The observed states of the sessions number at least as many as the observations that show a
  -- session by their state, their identifier or their current, and at most as many as all
  -- observations.
  pub reconstruct_sessions-states :
      (observations : List ConnectorObservation)
      → (length (select is_session_start observations)
          ≤ states_of (reconstruct_sessions charger_id connector_id gaps observations))
        × (states_of (reconstruct_sessions charger_id connector_id gaps observations)
            ≤ length observations)
  unfolding reconstruct_sessions
  reconstruct_sessions-states observations =
      let bounds = over_sessions-states (sort_by connector_le observations) in
      let starts = start_total-sort_by observations in
      let size = length-sort_by connector_le observations in
      (omega (arith, bounds.0, starts), omega (arith, bounds.1, size))
