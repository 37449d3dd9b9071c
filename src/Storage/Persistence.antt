-- ===== src/Storage/Persistence.antt =====
-- When src/storage.rs writes its state: snapshots wait for a deadline, later ones replace earlier ones,
-- and a failed write is tried again, ever later, until a limit.
use mathlib.Core.Option
use hidshift.Storage.{StorageError, StorageState}
use hidshift.Storage.Slots.{StorageSlotBackend, StorageWriteResult, persist_storage_state}
use hidshift.Prelude.{
  Bool, Option, Result, err, false, if◌then◌else◌, is_some, leb, ltb, min, none, not, ok,
  saturating_add64, saturating_add8, some, true, u64_max, ℕ, ◌%◌, ◌&&◌, ◌*◌, ◌-◌, ◌==◌, ◌^◌,
}
pub mod Staged
pub mod Retry
pub mod Task
pub mod Completion
mod Tests

abbrev pub storage_retry_base_ms : ℕ
storage_retry_base_ms = 1000

abbrev pub storage_retry_max_ms : ℕ
storage_retry_max_ms = 60000

abbrev pub storage_retry_failure_limit : ℕ
storage_retry_failure_limit = 6

pub data StoragePersistPriority : Type 0 where
  lazy normal critical : StoragePersistPriority

-- The derived order: `Lazy < Normal < Critical`.
abbrev pub rank : StoragePersistPriority → ℕ
rank lazy = 0
rank normal = 1
rank critical = 2

unfoldable pub max_priority :
    StoragePersistPriority → StoragePersistPriority → StoragePersistPriority
max_priority a b = if ltb (rank b) (rank a) then a else b

abbrev pub same_priority : StoragePersistPriority → StoragePersistPriority → Bool
same_priority a b = rank a == rank b

pub data StorageHealth : Type 0 where
  initializing persistent volatile_test health_unavailable degraded : StorageHealth

unfoldable pub allows_persistent_mutation : StorageHealth → Bool
allows_persistent_mutation persistent = true
allows_persistent_mutation volatile_test = true
allows_persistent_mutation initializing = false
allows_persistent_mutation health_unavailable = false
allows_persistent_mutation degraded = false

unfoldable pub health_from_byte : ℕ → Option StorageHealth
health_from_byte value =
    if value == 0
    then some initializing
    else if value == 1
    then some persistent
    else if value == 2
    then some volatile_test
    else if value == 3
    then some health_unavailable
    else if value == 4
    then some degraded
    else none

pub record StoragePersistence : Type 0 where
  pub normal_delay_ms : ℕ
  pub lazy_delay_ms : ℕ
  pub pending_state : Option StorageState
  pub pending_priority : Option StoragePersistPriority
  pub deadline_ms : Option ℕ
  pub consecutive_failures : ℕ
  pub retry_suspended : Bool

unfoldable pub new_persistence : ℕ → ℕ → StoragePersistence
new_persistence normal_delay_ms lazy_delay_ms = record {
  normal_delay_ms = normal_delay_ms;
  lazy_delay_ms = lazy_delay_ms;
  pending_state = none;
  pending_priority = none;
  deadline_ms = none;
  consecutive_failures = 0;
  retry_suspended = false;
}

unfoldable pub delay_for : StoragePersistence → StoragePersistPriority → ℕ
delay_for p critical = 0
delay_for p normal = p.normal_delay_ms
delay_for p lazy = p.lazy_delay_ms

-- `is_none_or(|pending| pending.generation != state.generation)`
abbrev pub is_new_snapshot : Option StorageState → StorageState → Bool
is_new_snapshot none state = true
is_new_snapshot (some pending) state = not (pending.generation == state.generation)

unfoldable pub merged_priority :
    Option StoragePersistPriority → StoragePersistPriority → StoragePersistPriority
unfolding max_priority
merged_priority none priority = priority
merged_priority (some current) priority = max_priority current priority

-- The earlier deadline stays when the pending snapshot is the more urgent one.
unfoldable pub merged_deadline : Option ℕ → Bool → ℕ → ℕ
merged_deadline none raised new_deadline = new_deadline
merged_deadline (some current) raised new_deadline =
    if raised then min current new_deadline else new_deadline

unfoldable pub stage :
    StoragePersistence → StorageState → StoragePersistPriority → ℕ → StoragePersistence
unfolding merged_priority delay_for merged_deadline
stage p state priority now_ms =
    let fresh = is_new_snapshot p.pending_state state in
    let merged = merged_priority p.pending_priority priority in
    let new_deadline = saturating_add64 now_ms (delay_for p merged) in
    record p {
      consecutive_failures = if fresh then 0 else p.consecutive_failures;
      retry_suspended = if fresh then false else p.retry_suspended;
      pending_state = some state;
      pending_priority = some merged;
      deadline_ms =
          some (merged_deadline p.deadline_ms (not (same_priority merged priority)) new_deadline);
    }

unfoldable pub stage_quiesce_snapshot : StoragePersistence → StorageState → ℕ → StoragePersistence
unfolding stage
stage_quiesce_snapshot p state now_ms =
    if is_new_snapshot p.pending_state state
    then stage p state critical now_ms
    else record p { pending_state = some state }

abbrev pub is_pending : StoragePersistence → Bool
is_pending p = is_some p.pending_state

unfoldable pub remaining_ms : StoragePersistence → ℕ → Option ℕ
remaining_ms p now_ms = Option.map (λ deadline. deadline - now_ms) p.deadline_ms

unfoldable pub overdue_ms : StoragePersistence → ℕ → Option ℕ
overdue_ms p now_ms = Option.map (λ deadline. now_ms - deadline) p.deadline_ms

-- `STORAGE_RETRY_BASE_MS.saturating_mul(1u64.checked_shl(shift).unwrap_or(u64::MAX)).min(..)`
unfoldable pub retry_delay : ℕ → ℕ
retry_delay shift =
    let factor = if ltb shift 64 then 2 ^ shift % 2 ^ 64 else u64_max in
    min (min (storage_retry_base_ms * factor) u64_max) storage_retry_max_ms

unfoldable pub record_failure : StoragePersistence → ℕ → StoragePersistence
unfolding retry_delay
record_failure p now_ms =
    let failures = saturating_add8 p.consecutive_failures 1 in
    if leb storage_retry_failure_limit failures
    then record p { consecutive_failures = failures; retry_suspended = true; deadline_ms = none }
    else record p {
      consecutive_failures = failures;
      deadline_ms = some (saturating_add64 now_ms (retry_delay (failures - 1)));
    }

-- `clear_pending`, whose `take_pending` gives up the state, its priority and the deadline.
unfoldable pub clear_pending : StoragePersistence → StoragePersistence
clear_pending p = record p {
  deadline_ms = none;
  pending_priority = none;
  pending_state = none;
  consecutive_failures = 0;
  retry_suspended = false;
}

unfoldable pub effective_health : StoragePersistence → StorageHealth → StorageHealth
effective_health p persistent = if ltb 0 p.consecutive_failures then degraded else persistent
effective_health p initializing = initializing
effective_health p volatile_test = volatile_test
effective_health p health_unavailable = health_unavailable
effective_health p degraded = degraded

module _ {B : Type 0} (backend : StorageSlotBackend B) where
  -- What `persist_due` does with the outcome of the write.
  unfoldable pub finish_persist :
      StoragePersistence
      → ℕ
      → Result StorageError StorageWriteResult × B
      → Result StorageError (Option StorageWriteResult) × (StoragePersistence × B)
  unfolding clear_pending record_failure
  finish_persist p now_ms (ok result, b) = (ok (some result), (clear_pending p, b))
  finish_persist p now_ms (err why, b) = (err why, (record_failure p now_ms, b))

  unfoldable pub persist_pending :
      StoragePersistence
      → ℕ
      → Option StorageState
      → B
      → Result StorageError (Option StorageWriteResult) × (StoragePersistence × B)
  unfolding finish_persist persist_storage_state
  persist_pending p now_ms none b = (ok none, (p, b))
  persist_pending p now_ms (some state) b =
      finish_persist p now_ms (persist_storage_state backend b state)

  unfoldable pub persist_at :
      StoragePersistence
      → ℕ
      → Option ℕ
      → B
      → Result StorageError (Option StorageWriteResult) × (StoragePersistence × B)
  unfolding persist_pending
  persist_at p now_ms none b = (ok none, (p, b))
  persist_at p now_ms (some deadline_ms) b =
      if ltb now_ms deadline_ms
      then (ok none, (p, b))
      else persist_pending p now_ms p.pending_state b

  unfoldable pub persist_due :
      StoragePersistence
      → B
      → ℕ
      → Result StorageError (Option StorageWriteResult) × (StoragePersistence × B)
  unfolding persist_at
  persist_due p b now_ms = persist_at p now_ms p.deadline_ms b

  -- What `flush` does with the outcome of the write: a failure is not recorded.
  unfoldable pub finish_flush :
      StoragePersistence
      → Result StorageError StorageWriteResult × B
      → Result StorageError (Option StorageWriteResult) × (StoragePersistence × B)
  unfolding clear_pending
  finish_flush p (ok result, b) = (ok (some result), (clear_pending p, b))
  finish_flush p (err why, b) = (err why, (p, b))

  unfoldable pub flush_pending :
      StoragePersistence
      → Option StorageState
      → B
      → Result StorageError (Option StorageWriteResult) × (StoragePersistence × B)
  unfolding finish_flush persist_storage_state
  flush_pending p none b = (ok none, (p, b))
  flush_pending p (some state) b = finish_flush p (persist_storage_state backend b state)

  unfoldable pub flush :
      StoragePersistence
      → B
      → Result StorageError (Option StorageWriteResult) × (StoragePersistence × B)
  unfolding flush_pending
  flush p b = flush_pending p p.pending_state b

pub record StorageTaskPolicy : Type 0 where
  pub active_ble_retry_ms : ℕ
  pub critical_force_quiesce_ms : ℕ

pub data StorageTaskAction : Type 0 where
  await_command : StorageTaskAction
  wait_for_deadline : ℕ → StorageTaskAction
  defer_for_active_ble : ℕ → StorageTaskAction
  quiesce_and_persist : Bool → StorageTaskAction

abbrev pub is_critical : Option StoragePersistPriority → Bool
is_critical none = false
is_critical (some priority) = same_priority priority critical

abbrev pub value_or {ℓ} : {A : Type ℓ} → Option A → A → A
value_or none d = d
value_or (some a) d = a

-- The part of `evaluate` after the checks of the deadline.
unfoldable pub evaluate_due : StorageTaskPolicy → StoragePersistence → ℕ → ℕ → StorageTaskAction
unfolding overdue_ms
evaluate_due policy p now_ms connections =
    if connections == 0
    then quiesce_and_persist false
    else if is_critical p.pending_priority
        && leb policy.critical_force_quiesce_ms (value_or (overdue_ms p now_ms) 0)
    then quiesce_and_persist true
    else defer_for_active_ble policy.active_ble_retry_ms

unfoldable pub evaluate_remaining :
    StorageTaskPolicy → StoragePersistence → ℕ → ℕ → Option ℕ → StorageTaskAction
unfolding evaluate_due
evaluate_remaining policy p now_ms connections none = evaluate_due policy p now_ms connections
evaluate_remaining policy p now_ms connections (some delay_ms) =
    if ltb 0 delay_ms then wait_for_deadline delay_ms else evaluate_due policy p now_ms connections

unfoldable pub evaluate : StorageTaskPolicy → StoragePersistence → ℕ → ℕ → StorageTaskAction
unfolding evaluate_remaining remaining_ms
evaluate policy p now_ms connections =
    if not (is_pending p)
    then await_command
    else if p.retry_suspended
    then await_command
    else evaluate_remaining policy p now_ms connections (remaining_ms p now_ms)
