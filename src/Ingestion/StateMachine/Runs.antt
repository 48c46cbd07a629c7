-- ===== src/Ingestion/StateMachine/Runs.antt =====
-- `_transition` of the services over a list of targets: the guard is asked before every write.
use predictive_analysis.Ingestion.StateMachine.Reach.{is_terminal_iff}
use predictive_analysis.Common.{
  Bool, true, false, ◌≡◌, Option, none, some, List, [], ◌∷◌, arith, refl, ap, ◌⊎◌, inl, inr,
  Bool-cases, contains, ◌==◌, ◌||◌,
}
use predictive_analysis.Ingestion.StateMachine.{
  FileStatus, frames_reconstructed, normalizing, normalized, normalized_with_warnings,
  can_transition, is_terminal, Guarded, allowed, raised, assert_transition_allowed, status_eq,
  IllegalStateTransition, illegal,
}

-- The file's status after a call, and the exception that the call raised, if any.
pub record Written : Type 0 where
  pub status : FileStatus
  pub error : Option IllegalStateTransition

abbrev write : FileStatus → FileStatus → Guarded → Written
write current target allowed = record { status = target; error = none }
write current target (raised e) = record { status = current; error = some e }

-- `IngestionService._transition`
unfoldable pub transition : FileStatus → FileStatus → Written
unfolding assert_transition_allowed
transition current target = write current target (assert_transition_allowed current target)

-- Calls of `_transition` one after another; the first exception ends the sequence.
unfoldable pub drive : FileStatus → List FileStatus → Written
unfolding transition
drive current [] = record { status = current; error = none }
drive current (target ∷ rest) =
    let written = transition current target in
    let more = drive written.status rest in elim written.error [ none ↦ more | some e ↦ written ]

transition_allowed :
    (s t : FileStatus)
    → can_transition s t ≡ true
    → transition s t ≡ record { status = t; error = none }
unfolding transition
transition_allowed s t p = rw p refl

transition_refused :
    (s t : FileStatus)
    → can_transition s t ≡ false
    → transition s t ≡ record { status = s; error = some (illegal s t) }
unfolding transition
transition_refused s t p = rw p refl

-- A call that the table allows is followed by the rest of the calls from its target.
pub drive_allowed :
    (s t : FileStatus) (rest : List FileStatus)
    → can_transition s t ≡ true
    → drive s (t ∷ rest) ≡ drive t rest
unfolding drive
drive_allowed s t rest p =
    ap (λ (w : Written). elim w.error [ none ↦ drive w.status rest | some e ↦ w ])
      (transition_allowed s t p)

-- A call that the table refuses ends the sequence, and the status stays.
pub drive_refused :
    (s t : FileStatus) (rest : List FileStatus)
    → can_transition s t ≡ false
    → drive s (t ∷ rest) ≡ record { status = s; error = some (illegal s t) }
unfolding drive
drive_refused s t rest p =
    ap (λ (w : Written). elim w.error [ none ↦ drive w.status rest | some e ↦ w ])
      (transition_refused s t p)

-- A call either writes its target, when the table allows it, or leaves the status as it was and
-- raises an exception that names both states, when the table does not.
pub transition_lem :
    (s t : FileStatus)
    → (can_transition s t ≡ true) × ((transition s t).status ≡ t) × ((transition s t).error ≡ none)
      ⊎ (can_transition s t ≡ false)
        × ((transition s t).status ≡ s)
        × ((transition s t).error ≡ some (illegal s t))
unfolding transition
transition_lem s t = elim (Bool-cases (can_transition s t)) [
  | inl p ↦ inl (p, rw p, rw p)
  | inr p ↦ inr (p, rw p, rw p)
]

-- States that a file has only after its frames were reconstructed at least once.
abbrev is_silver : FileStatus → Bool
is_silver normalizing = true
is_silver normalized = true
is_silver normalized_with_warnings = true
is_silver _ = false

abbrev is_past_frames : FileStatus → Bool
is_past_frames frames_reconstructed = true
is_past_frames s = is_silver s

enters_silver :
    (s t : FileStatus)
    → can_transition s t ≡ true
    → is_past_frames s ≡ false
    → is_silver t ≡ true
    → ⊥
unfolding can_transition
enters_silver s t = ground arith

not_silver : (s : FileStatus) → is_past_frames s ≡ false → is_silver s ≡ true → ⊥
not_silver s h k = ground arith

step_before_frames :
    (s t : FileStatus)
    → can_transition s t ≡ true
    → is_past_frames s ≡ false
    → (t ≡ frames_reconstructed) ⊎ (is_past_frames t ≡ false)
unfolding can_transition
step_before_frames s t = ground arith

-- From a state that is neither FRAMES_RECONSTRUCTED nor one of normalization, a file reaches a
-- state of normalization only by targets that include FRAMES_RECONSTRUCTED.
pub silver_needs_frames :
    (s : FileStatus) (targets : List FileStatus)
    → is_past_frames s ≡ false
    → is_silver (drive s targets).status ≡ true
    → contains targets frames_reconstructed ≡ true
unfolding drive
silver_needs_frames s [] h k = absurd (not_silver s h k)
silver_needs_frames s (t ∷ rest) h k = elim (Bool-cases (can_transition s t)) [
  | inl p ↦ elim (step_before_frames s t p h) [
    | inl e ↦ rw e refl
    | inr q ↦
        or_true (t == frames_reconstructed)
          (silver_needs_frames t rest q (rw (drive_allowed s t rest p) at k))
  ]
  | inr p ↦ absurd (not_silver s h (rw (drive_refused s t rest p) at k))
]
  where
    or_true : (b : Bool) {c : Bool} → c ≡ true → (b || c) ≡ true
    or_true true e = refl
    or_true false e = e

-- A terminal status is final: no target changes it, and the first one asked for is refused.
pub drive_terminal :
    (s t : FileStatus) (rest : List FileStatus)
    → is_terminal s ≡ true
    → drive s (t ∷ rest) ≡ record { status = s; error = some (illegal s t) }
drive_terminal s t rest h = drive_refused s t rest ((is_terminal_iff s).0 h t)
