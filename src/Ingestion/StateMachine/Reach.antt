-- ===== src/Ingestion/StateMachine/Reach.antt =====
-- The transition table as a relation, and which states it leads to.
use predictive_analysis.Common.{true, false, ◌≡◌, ◌↔◌, refl}
use predictive_analysis.Ingestion.StateMachine.{
  FileStatus, discovered, registered, landing, profiling, schema_validation, quality_validation,
  ready_for_normalization, frame_reconstruction, frames_reconstructed, normalized,
  normalized_with_warnings, completed, partial, failed, quarantined, duplicate, can_transition,
  is_terminal,
}

infix 40 ◌⟶*◌
pub data ◌⟶*◌ : FileStatus → FileStatus → Type 0 where
  here : {s : FileStatus} → s ⟶* s
  step : {s u : FileStatus} (t : FileStatus) → can_transition s t ≡ true → t ⟶* u → s ⟶* u

-- A state is terminal exactly when no transition leaves it.
pub is_terminal_iff :
    (s : FileStatus) → (is_terminal s ≡ true) ↔ ((t : FileStatus) → can_transition s t ≡ false)
unfolding is_terminal can_transition
is_terminal_iff completed = (λ _ t. refl, λ _. refl)
is_terminal_iff duplicate = (λ _ t. refl, λ _. refl)
is_terminal_iff quarantined = (λ _ t. refl, λ _. refl)
is_terminal_iff failed = (λ h. cc, λ h. cc (h registered))
is_terminal_iff ready_for_normalization = (λ h. cc, λ h. cc (h failed))
is_terminal_iff frames_reconstructed = (λ h. cc, λ h. cc (h failed))
is_terminal_iff normalized = (λ h. cc, λ h. cc (h completed))
is_terminal_iff normalized_with_warnings = (λ h. cc, λ h. cc (h completed))
is_terminal_iff _ = (λ h. cc, λ h. cc (h failed))

from_registered : registered ⟶* completed
unfolding can_transition
from_registered = step landing refl (
    step profiling refl (
      step schema_validation refl (
        step quality_validation refl
          (step ready_for_normalization refl (step completed refl here)))))

-- From every state that is not terminal, the file can still be completed.
pub ⟶*-completed : (s : FileStatus) → is_terminal s ≡ false → s ⟶* completed
unfolding is_terminal can_transition
⟶*-completed completed h = here
⟶*-completed duplicate h = cc
⟶*-completed quarantined h = cc
⟶*-completed discovered h = step registered refl from_registered
⟶*-completed registered h = from_registered
⟶*-completed failed h = step registered refl from_registered
⟶*-completed landing h = step profiling refl (
    step schema_validation refl
      (step quality_validation refl (step ready_for_normalization refl (step completed refl here))))
⟶*-completed profiling h =
    step schema_validation refl
      (step quality_validation refl (step ready_for_normalization refl (step completed refl here)))
⟶*-completed schema_validation h =
    step quality_validation refl (step ready_for_normalization refl (step completed refl here))
⟶*-completed quality_validation h = step ready_for_normalization refl (step completed refl here)
⟶*-completed partial h = step ready_for_normalization refl (step completed refl here)
⟶*-completed frame_reconstruction h = step frames_reconstructed refl (step completed refl here)
⟶*-completed _ h = step completed refl here
