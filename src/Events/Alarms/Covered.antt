-- ===== src/Events/Alarms/Covered.antt =====
-- No active observation is lost: some interval of the alarm holds its time.
use predictive_analysis.Common.{
  ℕ, ◌≤◌, Bool, true, false, ◌≡◌, refl, ◌∙◌, Option, none, some, List, [], ◌∷◌, String, arith, inl,
  inr, Bool-cases, leb, All, ◌||◌, ◌&&◌, any, select,
}
use predictive_analysis.Common.Sorting.{sort_by, IsSorted, sort_by-IsSorted, sort_by-All}
use predictive_analysis.Events.Models.{
  AlarmSubject, ReconstructedAlarm, TelemetryGapInterval, AlarmSeverity,
}
use predictive_analysis.Events.Alarms.{
  AlarmObservation, observation_le, Running, Progress, reopened, cleared, left_open,
  begin_or_reopen, turn, observe, observe_all, with_open, in_order, reconstruct_alarms,
  is_within_debounce,
}
use predictive_analysis.Events.Alarms.Timeline.{
  IsProgress, turn-IsProgress, times_after, after_zero, observation_le_total, observation_le_trans,
}

abbrev not_after : ℕ → Option ℕ → Bool
not_after time none = true
not_after time (some end) = leb time end

-- The time lies in the interval, which has no end while the alarm is open.
abbrev pub covers : ℕ → ReconstructedAlarm → Bool
covers time a = leb a.start_time time && not_after time a.end_time

abbrev runs_at : ℕ → Option Running → Bool
runs_at time none = false
runs_at time (some r) = leb r.start_time time

-- The time lies in an interval that is closed, or in the one in course.
abbrev knows : ℕ → Progress → Bool
knows time s = any (covers time) s.reconstructed || runs_at time s.running

any-in_order :
    (time : ℕ) (older later : List ReconstructedAlarm)
    → any (covers time) (in_order older later)
      ≡ (any (covers time) older || any (covers time) later)
any-in_order time [] later = refl
any-in_order time (a ∷ older) later = ground (arith, any-in_order time older (a ∷ later))

knows-begin_or_reopen :
    (debounce time : ℕ) (o : AlarmObservation) (done : List ReconstructedAlarm)
    → any (covers time) done ≡ true
    → knows time (begin_or_reopen debounce o done) ≡ true
unfolding begin_or_reopen
knows-begin_or_reopen debounce time o [] h = cc
knows-begin_or_reopen debounce time o (a ∷ older) h = ground arith

or_leb : (b : Bool) (n : ℕ) → (b || leb n n) ≡ true
or_leb b n = ground arith

module _ (subject : AlarmSubject) (severity : AlarmSeverity) (version : String)
    (gaps : List TelemetryGapInterval) where
  knows-turn :
      (debounce time : ℕ) (o : AlarmObservation) (active : Bool) (done : List ReconstructedAlarm)
      (running : Option Running)
      → time ≤ o.event_time
      → (any (covers time) done || runs_at time running) ≡ true
      → knows time (turn subject severity version gaps debounce o active done running) ≡ true
  unfolding cleared
  knows-turn debounce time o true done none h k =
      knows-begin_or_reopen debounce time o done (ground arith)
  knows-turn debounce time o true done (some r) h k = k
  knows-turn debounce time o false done none h k = k
  knows-turn debounce time o false done (some r) h k = ground arith

  -- What a call knows, it knows after the observations that follow.
  knows-observe_all :
      (debounce time : ℕ) (os : List AlarmObservation) (s : Progress)
      → All (λ o. time ≤ o.event_time) os
      → knows time s ≡ true
      → knows time (observe_all subject severity version gaps debounce os s) ≡ true
  unfolding observe_all
  knows-observe_all debounce time [] s h k = k
  knows-observe_all debounce time (o ∷ os) s h k =
      knows-observe_all debounce time os (observe subject severity version gaps debounce o s) h.1
        (knows-turn debounce time o o.is_active s.reconstructed s.running h.0 k)

  knows-started :
      (debounce : ℕ) (o : AlarmObservation) (done : List ReconstructedAlarm)
      (running : Option Running)
      → IsProgress debounce o.event_time
          (turn subject severity version gaps debounce o true done running)
      → knows o.event_time (turn subject severity version gaps debounce o true done running) ≡ true
  unfolding begin_or_reopen
  knows-started debounce o done (some r) i = ground (arith, i.course.1)
  knows-started debounce o [] none i = ground arith
  knows-started debounce o (a ∷ older) none i =
      elim (Bool-cases (is_within_debounce debounce o.event_time a.end_time)) [
        | inl w ↦
            let j : IsProgress debounce o.event_time
                (record { reconstructed = older; running = some (reopened o a) }) =
              rw w at i in
            rw w (ground (arith, j.course.1))
        | inr w ↦ rw w (or_leb (any (covers o.event_time) (a ∷ older)) o.event_time)
      ]

  -- After an active observation an alarm is in course, since a time that is not after it.
  knows-active :
      (debounce time : ℕ) (o : AlarmObservation) (s : Progress)
      → time ≤ o.event_time
      → IsProgress debounce time s
      → o.is_active ≡ true
      → knows o.event_time (observe subject severity version gaps debounce o s) ≡ true
  unfolding observe
  knows-active debounce time o s h i a = elim (Bool-cases o.is_active) [
    | inl b ↦ rw b (
        knows-started debounce o s.reconstructed s.running (
          turn-IsProgress subject severity version gaps debounce time o true s.reconstructed
            s.running h i.backward i.ended i.course))
    | inr b ↦ cc
  ]

  knows-observed :
      (debounce time : ℕ) (os : List AlarmObservation) (s : Progress)
      → All (λ o. time ≤ o.event_time) os
      → IsSorted observation_le os
      → IsProgress debounce time s
      → All
          (λ o.
            o.is_active ≡ true
            → knows o.event_time (observe_all subject severity version gaps debounce os s) ≡ true)
          os
  unfolding observe_all
  knows-observed debounce time [] s h k i = tt
  knows-observed debounce time (o ∷ os) s h k i =
      let next = observe subject severity version gaps debounce o s in
      let later = times_after o os k.0 in
      (
        λ a.
            knows-observe_all debounce o.event_time os next later
              (knows-active debounce time o s h.0 i a),
        knows-observed debounce o.event_time os next later k.1 (
            turn-IsProgress subject severity version gaps debounce time o o.is_active
              s.reconstructed s.running h.0 i.backward i.ended i.course),
      )

  any-with_open :
      (time : ℕ) (done : List ReconstructedAlarm) (running : Option Running)
      → any (covers time) (in_order (with_open subject severity version gaps done running) [])
        ≡ (any (covers time) done || runs_at time running)
  unfolding left_open
  any-with_open time done none = ground (arith, any-in_order time done [])
  any-with_open time done (some r) =
      ground (arith, any-in_order time (with_open subject severity version gaps done (some r)) [])

  All-covers :
      (debounce : ℕ) (s : Progress) (os : List AlarmObservation)
      → All (λ o. o.is_active ≡ true → knows o.event_time s ≡ true) os
      → All
          (λ o.
            any
              (covers o.event_time)
              (in_order (with_open subject severity version gaps s.reconstructed s.running) [])
            ≡ true)
          (select (λ o. o.is_active) os)
  All-covers debounce s [] h = tt
  All-covers debounce s (o ∷ os) h = elim (Bool-cases o.is_active) [
    | inl a ↦
        rw a (
          any-with_open o.event_time s.reconstructed s.running ∙ h.0 a,
          All-covers debounce s os h.1,
        )
    | inr a ↦ rw a (All-covers debounce s os h.1)
  ]

  -- For every active observation some interval of the result has its time between its start and
  -- its end, or, if the alarm is open, after its start.
  pub reconstruct_alarms-covers :
      (debounce : ℕ) (observations : List AlarmObservation)
      → All
          (λ o.
            any
              (covers o.event_time)
              (reconstruct_alarms subject severity version gaps debounce observations)
            ≡ true)
          (select (λ o. o.is_active) observations)
  unfolding reconstruct_alarms
  reconstruct_alarms-covers debounce observations =
      let ordered = sort_by observation_le observations in
      let start : Progress = record { reconstructed = []; running = none } in
      let s = observe_all subject severity version gaps debounce ordered start in
      All-covers debounce s observations (
        sort_by-All observation_le (λ o. o.is_active ≡ true → knows o.event_time s ≡ true)
          observations
          (knows-observed debounce 0 ordered start (after_zero ordered)
            (sort_by-IsSorted observation_le observation_le_total observation_le_trans observations)
            (record { backward = tt; ended = tt; course = tt })))
