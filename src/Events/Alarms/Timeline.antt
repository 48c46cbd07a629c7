-- ===== src/Events/Alarms/Timeline.antt =====
-- The intervals of an alarm: each ends after it starts, one after the other, only the last is open.
use predictive_analysis.Common.{
  ℕ, ◌+◌, ◌≤◌, ◌<◌, Bool, true, false, ◌≡◌, refl, Option, none, some, List, [], ◌∷◌, String, arith,
  ◌⊎◌, inl, inr, Bool-cases, ltb, All,
}
use predictive_analysis.Common.Sorting.{sort_by, IsSorted, sort_by-IsSorted}
use predictive_analysis.Events.Models.{
  AlarmSubject, ReconstructedAlarm, TelemetryGapInterval, AlarmSeverity,
}
use predictive_analysis.Events.Alarms.{
  AlarmObservation, observation_le, Running, Progress, cleared, left_open, begin_or_reopen, turn,
  observe, observe_all, with_open, in_order, reconstruct_alarms, is_within_debounce,
}

-- An end that is not before the start; an open alarm has no end.
abbrev pub EndsAfter : ℕ → Option ℕ → Type 0
EndsAfter start none = Unit
EndsAfter start (some end) = start ≤ end

-- The next start is not before the end, and more than the debounce time after it, if there is one.
abbrev pub Leaves : ℕ → Option ℕ → ℕ → Type 0
Leaves debounce end start =
    (e : ℕ) × (end ≡ some e) × (e ≤ start) × ((debounce ≡ 0) ⊎ (e + debounce < start))

abbrev pub IsInterval : ReconstructedAlarm → Type 0
IsInterval a = EndsAfter a.start_time a.end_time

abbrev Precedes : ℕ → ReconstructedAlarm → List ReconstructedAlarm → Type 0
Precedes debounce a [] = Unit
Precedes debounce a (b ∷ later) = Leaves debounce a.end_time b.start_time

-- Intervals in their order: the next one starts after the debounce time of the one before.
abbrev pub IsTimeline : ℕ → List ReconstructedAlarm → Type 0
IsTimeline debounce [] = Unit
IsTimeline debounce (a ∷ later) =
    IsInterval a × Precedes debounce a later × IsTimeline debounce later

-- The latest interval leaves the debounce time before a start.
abbrev pub After : ℕ → List ReconstructedAlarm → ℕ → Type 0
After debounce [] start = Unit
After debounce (a ∷ older) start = Leaves debounce a.end_time start

-- The same, the latest interval first.
abbrev pub IsBackward : ℕ → List ReconstructedAlarm → Type 0
IsBackward debounce [] = Unit
IsBackward debounce (b ∷ older) =
    IsInterval b × After debounce older b.start_time × IsBackward debounce older

abbrev Joins : ℕ → List ReconstructedAlarm → List ReconstructedAlarm → Type 0
Joins debounce older [] = Unit
Joins debounce older (b ∷ later) = After debounce older b.start_time

in_order-IsTimeline :
    (debounce : ℕ) (older later : List ReconstructedAlarm)
    → IsBackward debounce older
    → IsTimeline debounce later
    → Joins debounce older later
    → IsTimeline debounce (in_order older later)
in_order-IsTimeline debounce [] later b t j = t
in_order-IsTimeline debounce (a ∷ older) [] b t j =
    in_order-IsTimeline debounce older (a ∷ []) b.2 (b.0, tt, tt) b.1
in_order-IsTimeline debounce (a ∷ older) (c ∷ later) b t j =
    in_order-IsTimeline debounce older (a ∷ (c ∷ later)) b.2 (b.0, j, t) b.1

-- The latest interval ended by the time.
abbrev pub EndedBy : ℕ → List ReconstructedAlarm → Type 0
EndedBy time [] = Unit
EndedBy time (a ∷ older) = (end : ℕ) × (a.end_time ≡ some end) × (end ≤ time)

abbrev pub IsRunning : ℕ → ℕ → List ReconstructedAlarm → Option Running → Type 0
IsRunning debounce time done none = Unit
IsRunning debounce time done (some r) = After debounce done r.start_time × (r.start_time ≤ time)

-- What holds between two observations, at the time of the first.
pub record IsProgress (debounce time : ℕ) (s : Progress) : Type 0 where
  pub backward : IsBackward debounce s.reconstructed
  pub ended : EndedBy time s.reconstructed
  pub course : IsRunning debounce time s.reconstructed s.running

EndedBy-later : (t u : ℕ) (done : List ReconstructedAlarm) → t ≤ u → EndedBy t done → EndedBy u done
EndedBy-later t u [] h e = tt
EndedBy-later t u (a ∷ older) h (end, p, q) = (end, p, omega arith)

-- What precedes an interval ended before the interval did.
After-EndedBy :
    (debounce start time : ℕ) (older : List ReconstructedAlarm)
    → After debounce older start
    → start ≤ time
    → EndedBy time older
After-EndedBy debounce start time [] a h = tt
After-EndedBy debounce start time (b ∷ older) (e, p, q, _) h = (e, p, omega arith)

not_within_debounce :
    (debounce time end : ℕ)
    → is_within_debounce debounce time (some end) ≡ false
    → (debounce ≡ 0) ⊎ (end + debounce < time)
not_within_debounce debounce time end h = elim (Bool-cases (ltb 0 debounce)) [
  | inl p ↦ inr (ground arith)
  | inr p ↦ inl (ground arith)
]

begin_or_reopen-IsProgress :
    (debounce time : ℕ) (o : AlarmObservation) (done : List ReconstructedAlarm)
    → time ≤ o.event_time
    → IsBackward debounce done
    → EndedBy time done
    → IsProgress debounce o.event_time (begin_or_reopen debounce o done)
unfolding begin_or_reopen
begin_or_reopen-IsProgress debounce time o [] h b e = record {
  backward = tt;
  ended = tt;
  course = (tt, omega arith);
}
begin_or_reopen-IsProgress debounce time o (a ∷ older) h b (end, p, q) =
    let start_le : a.start_time ≤ end = rw p at b.0 in
    elim (Bool-cases (is_within_debounce debounce o.event_time a.end_time)) [
      | inl w ↦ rw w (record {
        backward = b.2;
        ended = After-EndedBy debounce a.start_time o.event_time older b.1 (omega arith);
        course = (b.1, omega arith);
      })
      | inr w ↦ rw w (record {
        backward = b;
        ended = (end, p, omega arith);
        course = (
          (end, p, omega arith, not_within_debounce debounce o.event_time end (rw p at w)),
          omega arith,
        );
      })
    ]

pub observation_le_total :
    (a b : AlarmObservation) → observation_le a b ≡ false → observation_le b a ≡ true
observation_le_total a b h = ground arith

pub observation_le_trans :
    (a b c : AlarmObservation)
    → observation_le a b ≡ true
    → observation_le b c ≡ true
    → observation_le a c ≡ true
observation_le_trans a b c h k = ground arith

pub times_after :
    (o : AlarmObservation) (os : List AlarmObservation)
    → All (λ p. observation_le o p ≡ true) os
    → All (λ p. o.event_time ≤ p.event_time) os
times_after o [] h = tt
times_after o (p ∷ os) h = (ground (arith, h.0), times_after o os h.1)

pub after_zero : (os : List AlarmObservation) → All (λ o. 0 ≤ o.event_time) os
after_zero [] = tt
after_zero (o ∷ os) = (omega arith, after_zero os)

module _ (subject : AlarmSubject) (severity : AlarmSeverity) (version : String)
    (gaps : List TelemetryGapInterval) where
  pub turn-IsProgress :
      (debounce time : ℕ) (o : AlarmObservation) (active : Bool) (done : List ReconstructedAlarm)
      (running : Option Running)
      → time ≤ o.event_time
      → IsBackward debounce done
      → EndedBy time done
      → IsRunning debounce time done running
      → IsProgress debounce o.event_time
          (turn subject severity version gaps debounce o active done running)
  unfolding cleared
  turn-IsProgress debounce time o true done none h b e r =
      begin_or_reopen-IsProgress debounce time o done h b e
  turn-IsProgress debounce time o true done (some c) h b e r = record {
    backward = b;
    ended = EndedBy-later time o.event_time done h e;
    course = (r.0, omega arith);
  }
  turn-IsProgress debounce time o false done none h b e r = record {
    backward = b;
    ended = EndedBy-later time o.event_time done h e;
    course = tt;
  }
  turn-IsProgress debounce time o false done (some c) h b e r = record {
    backward = (omega arith, r.0, b);
    ended = (o.event_time, refl, omega arith);
    course = tt;
  }

  -- The last time that the loop has seen, from the time before it.
  abbrev last_time : ℕ → List AlarmObservation → ℕ
  last_time time [] = time
  last_time time (o ∷ os) = last_time o.event_time os

  observe_all-IsProgress :
      (debounce time : ℕ) (os : List AlarmObservation) (s : Progress)
      → All (λ o. time ≤ o.event_time) os
      → IsSorted observation_le os
      → IsProgress debounce time s
      → IsProgress debounce
          (last_time time os)
          (observe_all subject severity version gaps debounce os s)
  unfolding observe_all
  observe_all-IsProgress debounce time [] s h k i = i
  observe_all-IsProgress debounce time (o ∷ os) s h k i =
      observe_all-IsProgress debounce o.event_time os
        (observe subject severity version gaps debounce o s) (times_after o os k.0) k.1
        (turn-IsProgress debounce time o o.is_active s.reconstructed s.running h.0 i.backward
          i.ended i.course)

  with_open-IsTimeline :
      (debounce time : ℕ) (done : List ReconstructedAlarm) (running : Option Running)
      → IsBackward debounce done
      → IsRunning debounce time done running
      → IsTimeline debounce (in_order (with_open subject severity version gaps done running) [])
  unfolding left_open
  with_open-IsTimeline debounce time done none b r = in_order-IsTimeline debounce done [] b tt tt
  with_open-IsTimeline debounce time done (some c) b r =
      in_order-IsTimeline debounce (left_open subject severity version gaps c ∷ done) []
        (tt, r.0, b) tt tt

  -- Each interval ends no earlier than it starts, only the last one is open, and each starts no
  -- earlier than the one before it ended, and more than the debounce time after it if that is
  -- above zero.
  pub reconstruct_alarms-IsTimeline :
      (debounce : ℕ) (observations : List AlarmObservation)
      → IsTimeline debounce (reconstruct_alarms subject severity version gaps debounce observations)
  unfolding reconstruct_alarms
  reconstruct_alarms-IsTimeline debounce observations =
      let ordered = sort_by observation_le observations in
      let i =
        observe_all-IsProgress debounce 0 ordered (record { reconstructed = []; running = none })
          (after_zero ordered)
          (sort_by-IsSorted observation_le observation_le_total observation_le_trans observations)
          (record { backward = tt; ended = tt; course = tt }) in
      with_open-IsTimeline debounce (last_time 0 ordered) _ _ i.backward i.course
