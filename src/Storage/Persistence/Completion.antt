-- ===== src/Storage/Persistence/Completion.antt =====
-- `QuiescedPersistCompletion` of src/storage.rs: what the storage task tells after a write, in order.
use hidshift.Storage.Persistence.{StorageHealth}
use hidshift.Prelude.{
  Bool, List, Option, [], if◌then◌else◌, is_none, none, refl, saturating_add8, some, suc, zero, ℕ,
  ◌&&◌, ◌==◌, ◌∷◌, ◌≡◌,
}

pub data QuiescedPersistCompletionAction : Type 0 where
  release_quiesce : QuiescedPersistCompletionAction
  report_storage_health : StorageHealth → QuiescedPersistCompletionAction
  report_flash_write : Bool → QuiescedPersistCompletionAction

pub record QuiescedPersistCompletion : Type 0 where
  pub next_health : Option StorageHealth
  pub write_succeeded : Bool
  pub phase : ℕ

unfoldable pub new_completion : Option StorageHealth → Bool → QuiescedPersistCompletion
new_completion next_health write_succeeded = record {
  next_health = next_health;
  write_succeeded = write_succeeded;
  phase = 0;
}

-- The action of a phase.
unfoldable pub phase_action :
    Option StorageHealth → Bool → ℕ → Option QuiescedPersistCompletionAction
phase_action next_health write_succeeded zero = some release_quiesce
phase_action (some health) write_succeeded (suc zero) = some (report_storage_health health)
phase_action none write_succeeded (suc zero) = some (report_flash_write write_succeeded)
phase_action (some health) write_succeeded (suc (suc zero)) =
    some (report_flash_write write_succeeded)
phase_action none write_succeeded (suc (suc zero)) = none
phase_action next_health write_succeeded (suc (suc (suc n))) = none

-- The phase after an action.
unfoldable pub next_phase : QuiescedPersistCompletion → ℕ
next_phase c =
    let phase = saturating_add8 c.phase 1 in
    if phase == 2 && is_none c.next_health then 3 else phase

unfoldable pub advance :
    QuiescedPersistCompletion
    → Option QuiescedPersistCompletionAction
    → Option QuiescedPersistCompletionAction × QuiescedPersistCompletion
unfolding next_phase
advance c none = (none, c)
advance c (some action) = (some action, record c { phase = next_phase c })

unfoldable pub next :
    QuiescedPersistCompletion → Option QuiescedPersistCompletionAction × QuiescedPersistCompletion
unfolding phase_action advance
next c = advance c (phase_action c.next_health c.write_succeeded c.phase)

unfoldable told :
    Option QuiescedPersistCompletionAction
    → List QuiescedPersistCompletionAction
    → List QuiescedPersistCompletionAction
told none actions = []
told (some action) actions = action ∷ actions

-- `collect`, for so many calls at most.
unfoldable collected : ℕ → QuiescedPersistCompletion → List QuiescedPersistCompletionAction
unfolding next told
collected zero c = []
collected (suc count) c = let actions = collected count (next c).1 in told (next c).0 actions

abbrev health_report :
    Option StorageHealth
    → List QuiescedPersistCompletionAction
    → List QuiescedPersistCompletionAction
health_report none actions = actions
health_report (some health) actions = report_storage_health health ∷ actions

-- The runtime is released before anything is reported, a change of health is reported before the
-- write, and the iterator ends after that, however often it is asked.
collected-new_completion :
    (next_health : Option StorageHealth) (write_succeeded : Bool) (count : ℕ)
    → collected (suc (suc (suc (suc count)))) (new_completion next_health write_succeeded)
      ≡ release_quiesce ∷ health_report next_health (report_flash_write write_succeeded ∷ [])
unfolding collected new_completion next told advance next_phase phase_action
collected-new_completion none write_succeeded count = refl
collected-new_completion (some health) write_succeeded count = refl
