-- ===== src/Ingestion/StateMachine.antt =====
-- pipelines/ingestion/state_machine.py, with `FileStatus` of backend/app/models/enums.py: the
-- lifecycle of one telemetry file. A frozenset of states is the list of its members.
pub mod Reach
pub mod Runs
pub mod Stages
use predictive_analysis.Common.{
  ℕ, Bool, true, false, ◌≡◌, List, [], ◌∷◌, if◌then◌else◌, Eq, eqb, ◌↔◌, contains, arith, select,
}

pub data FileStatus : Type 0 where
  discovered registered landing profiling schema_validation quality_validation : FileStatus
  ready_for_normalization frame_reconstruction frames_reconstructed : FileStatus
  normalizing normalized normalized_with_warnings completed : FileStatus
  partial failed quarantined duplicate : FileStatus

pub FileStatus-discrete : Discrete FileStatus
FileStatus-discrete = hlevel

-- A number for each state, by which states are compared.
abbrev code : FileStatus → ℕ
code discovered = 0
code registered = 1
code landing = 2
code profiling = 3
code schema_validation = 4
code quality_validation = 5
code ready_for_normalization = 6
code frame_reconstruction = 7
code frames_reconstructed = 8
code normalizing = 9
code normalized = 10
code normalized_with_warnings = 11
code completed = 12
code partial = 13
code failed = 14
code quarantined = 15
code duplicate = 16

pub same_status_iff : (a b : FileStatus) → (eqb (code a) (code b) ≡ true) ↔ (a ≡ b)
same_status_iff a b = ground arith

instance abbrev pub status_eq : Eq FileStatus
status_eq = record { same = λ a b. eqb (code a) (code b); same_iff = same_status_iff }

-- `_FAILURE_EXITS`
abbrev pub failure_exits : List FileStatus
failure_exits = failed ∷ quarantined ∷ []

-- `ALLOWED_TRANSITIONS`; `next_states` reads it, and every state is one of its keys.
unfoldable pub next_states : FileStatus → List FileStatus
next_states discovered = registered ∷ duplicate ∷ failure_exits
next_states registered = landing ∷ duplicate ∷ failure_exits
next_states landing = profiling ∷ failure_exits
next_states profiling = schema_validation ∷ failure_exits
next_states schema_validation = quality_validation ∷ failure_exits
next_states quality_validation = ready_for_normalization ∷ partial ∷ failure_exits
next_states ready_for_normalization = frame_reconstruction ∷ completed ∷ failed ∷ []
next_states frame_reconstruction = frames_reconstructed ∷ failure_exits
next_states frames_reconstructed =
    normalizing ∷ normalized ∷ frame_reconstruction ∷ completed ∷ failed ∷ []
next_states normalizing = normalized ∷ normalized_with_warnings ∷ completed ∷ failure_exits
next_states normalized = normalizing ∷ completed ∷ []
next_states normalized_with_warnings = normalizing ∷ completed ∷ []
next_states partial = ready_for_normalization ∷ failure_exits
next_states failed = registered ∷ []
next_states completed = []
next_states duplicate = []
next_states quarantined = []

unfoldable pub can_transition : FileStatus → FileStatus → Bool
unfolding next_states
can_transition current target = contains (next_states current) target

-- `status for status, targets in ALLOWED_TRANSITIONS.items() if not targets`, in the dict's order.
abbrev pub allowed_keys : List FileStatus
allowed_keys =
    discovered ∷ registered ∷ landing ∷ profiling ∷ schema_validation ∷ quality_validation
    ∷ ready_for_normalization ∷ frame_reconstruction ∷ frames_reconstructed ∷ normalizing
    ∷ normalized ∷ normalized_with_warnings ∷ partial ∷ failed ∷ completed ∷ duplicate ∷ quarantined
    ∷ []

abbrev has_no_targets : List FileStatus → Bool
has_no_targets [] = true
has_no_targets (_ ∷ _) = false

unfoldable pub terminal_states : List FileStatus
unfolding next_states
terminal_states = select (λ s. has_no_targets (next_states s)) allowed_keys

unfoldable pub is_terminal : FileStatus → Bool
unfolding terminal_states
is_terminal status = contains terminal_states status

pub data IllegalStateTransition : Type 0 where
  illegal : FileStatus → FileStatus → IllegalStateTransition

pub data Guarded : Type 0 where
  allowed : Guarded
  raised : IllegalStateTransition → Guarded

unfoldable pub assert_transition_allowed : FileStatus → FileStatus → Guarded
unfolding can_transition
assert_transition_allowed current target =
    if can_transition current target then allowed else raised (illegal current target)

-- `PHASE_1A_HAPPY_PATH`
abbrev pub phase_1a_happy_path : List FileStatus
phase_1a_happy_path =
    discovered ∷ registered ∷ landing ∷ profiling ∷ schema_validation ∷ quality_validation
    ∷ ready_for_normalization ∷ []
