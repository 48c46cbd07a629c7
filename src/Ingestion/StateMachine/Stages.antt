-- ===== src/Ingestion/StateMachine/Stages.antt =====
-- The stages that a file passes before it is ready for normalization.
use predictive_analysis.Common.{
  Bool, true, false, ◌≡◌, List, [], ◌∷◌, arith, refl, inl, inr, Bool-cases, ◌==◌, if◌then◌else◌,
}
use predictive_analysis.Ingestion.StateMachine.{
  FileStatus, discovered, registered, landing, profiling, schema_validation, quality_validation,
  ready_for_normalization, frame_reconstruction, frames_reconstructed, normalizing, normalized,
  normalized_with_warnings, completed, partial, failed, quarantined, duplicate, can_transition,
  status_eq,
}
use predictive_analysis.Ingestion.StateMachine.Runs.{drive, drive_allowed, drive_refused}

-- The stages that are ahead of a file in a state before it can be ready. A failed file starts again,
-- and from a terminal state it is never ready.
abbrev pub ahead : FileStatus → List FileStatus
ahead registered = landing ∷ profiling ∷ schema_validation ∷ quality_validation ∷ []
ahead landing = profiling ∷ schema_validation ∷ quality_validation ∷ []
ahead profiling = schema_validation ∷ quality_validation ∷ []
ahead schema_validation = quality_validation ∷ []
ahead quality_validation = []
ahead partial = []
ahead ready_for_normalization = []
ahead frame_reconstruction = []
ahead frames_reconstructed = []
ahead normalizing = []
ahead normalized = []
ahead normalized_with_warnings = []
ahead _ = registered ∷ landing ∷ profiling ∷ schema_validation ∷ quality_validation ∷ []

-- The targets include the stages, in their order.
abbrev pub in_order : List FileStatus → List FileStatus → Bool
in_order [] targets = true
in_order (stage ∷ stages) [] = false
in_order (stage ∷ stages) (t ∷ targets) =
    let skipped = in_order (stage ∷ stages) targets in
    let met = in_order stages targets in if t == stage then met else skipped

in_order-tail :
    (stage : FileStatus) (stages targets : List FileStatus)
    → in_order (stage ∷ stages) targets ≡ true
    → in_order stages targets ≡ true
in_order-tail stage [] targets h = refl
in_order-tail stage (next ∷ stages) [] h = cc h
in_order-tail stage (next ∷ stages) (t ∷ targets) h =
    let later : in_order (next ∷ stages) targets ≡ true
        → in_order (next ∷ stages) (t ∷ targets) ≡ true =
      λ k. elim (Bool-cases (t == next)) [
        | inl q ↦ rw q (in_order-tail next stages targets k)
        | inr q ↦ rw q k
      ] in
    elim (Bool-cases (t == stage)) [
      | inl p ↦ later (rw p at h)
      | inr p ↦ later (in_order-tail stage (next ∷ stages) targets (rw p at h))
    ]

-- What is ahead of a failed file, less the stages that are passed.
from_start :
    (rest : List FileStatus)
    → in_order (ahead failed) rest ≡ true
    → (in_order (ahead registered) rest ≡ true)
      × (in_order (ahead landing) rest ≡ true)
      × (in_order (ahead profiling) rest ≡ true)
      × (in_order (ahead schema_validation) rest ≡ true)
from_start rest h =
    let one = in_order-tail registered (ahead registered) rest h in
    let two = in_order-tail landing (ahead landing) rest one in
    let three = in_order-tail profiling (ahead profiling) rest two in
    (one, two, three, in_order-tail schema_validation (ahead schema_validation) rest three)

-- One call that the table allows passes the next stage, stays before it, or starts again.
step_in_order :
    (s t : FileStatus) (rest : List FileStatus)
    → can_transition s t ≡ true
    → in_order (ahead t) rest ≡ true
    → in_order (ahead s) (t ∷ rest) ≡ true
unfolding can_transition
step_in_order discovered t rest p h = ground (arith, from_start rest)
step_in_order registered t rest p h = ground (arith, from_start rest)
step_in_order landing t rest p h = ground (arith, from_start rest)
step_in_order profiling t rest p h = ground (arith, from_start rest)
step_in_order schema_validation t rest p h = ground (arith, from_start rest)
step_in_order failed t rest p h = ground (arith, from_start rest)
step_in_order completed t rest p h = cc
step_in_order duplicate t rest p h = cc
step_in_order quarantined t rest p h = cc
step_in_order _ t rest p h = refl

-- If a sequence of calls leaves a file ready for normalization, its targets include, in their order,
-- the stages that were ahead of the file: from DISCOVERED, REGISTERED, LANDING, PROFILING,
-- SCHEMA_VALIDATION and QUALITY_VALIDATION.
pub ready_in_order :
    (s : FileStatus) (targets : List FileStatus)
    → (drive s targets).status ≡ ready_for_normalization
    → in_order (ahead s) targets ≡ true
unfolding drive
ready_in_order s [] h = rw h refl
ready_in_order s (t ∷ rest) h = elim (Bool-cases (can_transition s t)) [
  | inl p ↦ step_in_order s t rest p (ready_in_order t rest (rw (drive_allowed s t rest p) at h))
  | inr p ↦ nothing_ahead s (t ∷ rest) (rw (drive_refused s t rest p) at h)
]
  where
    nothing_ahead :
        (s : FileStatus) (targets : List FileStatus)
        → s ≡ ready_for_normalization
        → in_order (ahead s) targets ≡ true
    nothing_ahead s targets e = rw e refl
