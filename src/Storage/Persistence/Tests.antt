-- ===== src/Storage/Persistence/Tests.antt =====
-- A snapshot that waits, over a backend whose writes always fail, as in the unit tests of
-- src/storage.rs.
use hidshift.Storage.Slots.{StorageSlotBackend, persist_storage_state}
use hidshift.Storage.Persistence.Task.{run-Writes}
use hidshift.Storage.{StorageState, flash_write}
use hidshift.Storage.Image.Tests.{demo}
use hidshift.Storage.Persistence.Staged.{after, run, run-Refines, run_unwritten, staging}
use hidshift.Storage.Persistence.{
  StoragePersistence, StorageTaskPolicy, critical, delay_for, evaluate, evaluate_due,
  evaluate_remaining, finish_persist, merged_deadline, merged_priority, new_persistence,
  persist_due, quiesce_and_persist, remaining_ms, stage,
}
use hidshift.Prelude.{[], err, false, none, refl, some, ◌∷◌, ◌≡◌}

abbrev broken_backend : StorageSlotBackend (Unit {0})
broken_backend = record { slot = λ b i. []; write_slot = λ b i image. (err flash_write, b) }

abbrev idle_policy : StorageTaskPolicy
idle_policy = record { active_ble_retry_ms = 500; critical_force_quiesce_ms = 3000 }

abbrev waiting : StoragePersistence × Unit {0}
waiting = run broken_backend (new_persistence 500 5000, tt) (staging demo critical 100 ∷ [])

run-Refines_example :
    waiting.0.pending_state
    ≡ run_unwritten broken_backend none
        (new_persistence 500 5000, tt)
        (staging demo critical 100 ∷ [])
run-Refines_example = run-Refines broken_backend 500 5000 tt (staging demo critical 100 ∷ [])

told_to_write : evaluate idle_policy waiting.0 100 0 ≡ quiesce_and_persist false
unfolding evaluate evaluate_remaining evaluate_due remaining_ms run after stage new_persistence
    merged_priority delay_for merged_deadline
told_to_write = refl

run-Writes_example :
    (s : StorageState) × (waiting.0.pending_state ≡ some s)
    × ((c : Unit {0})
        → persist_due broken_backend waiting.0 c 100
          ≡ finish_persist broken_backend waiting.0 100 (persist_storage_state broken_backend c s))
run-Writes_example =
    run-Writes broken_backend idle_policy 500 5000 100 0 tt (staging demo critical 100 ∷ [])
      told_to_write

abbrev thrice : StoragePersistence
thrice = record (new_persistence 500 5000) { consecutive_failures = 3 }
