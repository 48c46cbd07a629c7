-- ===== src/Examples/StateMachine.antt =====
-- The lifecycle of a file at concrete targets.
use predictive_analysis.Common.{true, ◌≡◌, none, some, List, [], ◌∷◌, refl, contains}
use predictive_analysis.Ingestion.StateMachine.{
  FileStatus, discovered, registered, landing, profiling, schema_validation, quality_validation,
  ready_for_normalization, frame_reconstruction, frames_reconstructed, normalizing, normalized,
  completed, failed, is_terminal, illegal, phase_1a_happy_path, status_eq,
}
use predictive_analysis.Ingestion.StateMachine.Reach.{◌⟶*◌, ⟶*-completed}
use predictive_analysis.Ingestion.StateMachine.Runs.{drive, silver_needs_frames}
use predictive_analysis.Ingestion.StateMachine.Stages.{ahead, in_order, ready_in_order}

abbrev first_phase : List FileStatus
first_phase =
    registered ∷ landing ∷ profiling ∷ schema_validation ∷ quality_validation
    ∷ ready_for_normalization ∷ []

abbrev to_normalized : List FileStatus
to_normalized = frame_reconstruction ∷ frames_reconstructed ∷ normalizing ∷ normalized ∷ []

happy_path_is_driven : phase_1a_happy_path ≡ discovered ∷ first_phase
happy_path_is_driven = refl

happy_path_accepted :
    drive discovered first_phase ≡ record { status = ready_for_normalization; error = none }
unfolding drive
happy_path_accepted = refl

skipping_is_refused : drive ready_for_normalization (normalizing ∷ []) ≡ record {
  status = ready_for_normalization;
  error = some (illegal ready_for_normalization normalizing);
}
unfolding drive
skipping_is_refused = refl

⟶*-completed_example : failed ⟶* completed
unfolding is_terminal
⟶*-completed_example = ⟶*-completed failed refl

silver_needs_frames_example : contains to_normalized frames_reconstructed ≡ true
unfolding drive
silver_needs_frames_example = silver_needs_frames ready_for_normalization to_normalized refl refl

ready_in_order_example : in_order (ahead discovered) first_phase ≡ true
unfolding drive
ready_in_order_example = ready_in_order discovered first_phase refl
