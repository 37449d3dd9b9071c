-- ===== src/Storage/Persistence/Staged.antt =====
-- The pending snapshot of src/storage.rs under any calls.
use hidshift.Storage.Image.{decode_storage_image, encode_storage_image, same_bytes}
use hidshift.Storage.Slots.{
  StorageSlotBackend, StorageSlotIndex, StorageWriteResult, newest, next_target,
  persist_storage_state, to_option, verify_slot, write_image,
}
use hidshift.Storage.Persistence.{
  finish_flush, flush, flush_pending, is_new_snapshot, new_persistence, storage_retry_failure_limit,
  StoragePersistPriority, stage, stage_quiesce_snapshot, StoragePersistence, clear_pending,
  finish_persist, persist_at, persist_due, persist_pending, record_failure,
}
use hidshift.Storage.{StorageError, StorageState, flash_verify, validate_state}
use hidshift.Prelude.{
  leb, saturating_add8, [], false, ◌∷◌, >>=-eq-ok, Bool-cases, List, Option, Result, ap, arith, err,
  inl, inr, is_some, ltb, none, not, ok, passed, refl, some, sym, ℕ, ◌>>◌, ◌||◌, ◌∙◌, ◌≡◌, ◌≤◌,
}

-- A result names the state that was asked for.
write_image-state :
    {B : Type 0} (backend : StorageSlotBackend B) (b : B) (s : StorageState)
    (target : StorageSlotIndex) (image : Result StorageError (List ℕ)) {r : StorageWriteResult}
    → (write_image backend b s target image).0 ≡ ok r
    → r.state ≡ s
unfolding write_image verify_slot
write_image-state backend b s target (err why) h = cc
write_image-state backend b s target (ok image) {r = r} h =
    let after = (backend.write_slot b target image).1 in
    let (_, _, verified) = >>=-eq-ok (backend.write_slot b target image).0 _ h in
    let (_, made) =
      passed
        (not (same_bytes (backend.slot after target) image)
          || not (is_some (to_option (decode_storage_image (backend.slot after target)))))
        flash_verify _ verified in
    let same : record { index = target; state = s; image = image } ≡ r = cc in
    sym (ap (λ r. r.state) same)

persist-state :
    {B : Type 0} (backend : StorageSlotBackend B) (b : B) (s : StorageState)
    {r : StorageWriteResult}
    → (persist_storage_state backend b s).0 ≡ ok r
    → r.state ≡ s
unfolding persist_storage_state
persist-state backend b s h =
    write_image-state backend b s (next_target (newest backend b))
      (validate_state s >> encode_storage_image s) h

pub data Outcome {B : Type 0} (p : StoragePersistence) (b : B) (now_ms : ℕ)
    : Result StorageError (Option StorageWriteResult) × (StoragePersistence × B) → Type 0 where
  waits : Outcome p b now_ms (ok none, (p, b))
  writes :
      (r : StorageWriteResult) (b2 : B) (deadline_ms : ℕ)
      → p.deadline_ms ≡ some deadline_ms
      → deadline_ms ≤ now_ms
      → p.pending_state ≡ some r.state
      → Outcome p b now_ms (ok (some r), (clear_pending p, b2))
  fails :
      (why : StorageError) (b2 : B) (deadline_ms : ℕ)
      → p.deadline_ms ≡ some deadline_ms
      → deadline_ms ≤ now_ms
      → Outcome p b now_ms (err why, (record_failure p now_ms, b2))

not_ltb : (a b : ℕ) → ltb a b ≡ false → b ≤ a
not_ltb a b h = ground arith

module _ {B : Type 0} (backend : StorageSlotBackend B) where
  finish-Outcome :
      (p : StoragePersistence) (b : B) (now_ms deadline_ms : ℕ) (s : StorageState)
      (out : Result StorageError StorageWriteResult × B)
      → p.deadline_ms ≡ some deadline_ms
      → deadline_ms ≤ now_ms
      → p.pending_state ≡ some s
      → ((r : StorageWriteResult) → out.0 ≡ ok r → r.state ≡ s)
      → Outcome p b now_ms (finish_persist backend p now_ms out)
  unfolding finish_persist
  finish-Outcome p b now_ms deadline_ms s (ok r, b2) at late pending same =
      writes r b2 deadline_ms at late (pending ∙ ap some (sym (same r refl)))
  finish-Outcome p b now_ms deadline_ms s (err why, b2) at late pending same =
      fails why b2 deadline_ms at late

  persist_pending-Outcome :
      (p : StoragePersistence) (b : B) (now_ms deadline_ms : ℕ) (pending : Option StorageState)
      → p.deadline_ms ≡ some deadline_ms
      → deadline_ms ≤ now_ms
      → p.pending_state ≡ pending
      → Outcome p b now_ms (persist_pending backend p now_ms pending b)
  unfolding persist_pending
  persist_pending-Outcome p b now_ms deadline_ms none at late same = waits
  persist_pending-Outcome p b now_ms deadline_ms (some s) at late same =
      finish-Outcome p b now_ms deadline_ms s (persist_storage_state backend b s) at late same
        (λ r h. persist-state backend b s h)

  persist_at-Outcome :
      (p : StoragePersistence) (b : B) (now_ms : ℕ) (deadline : Option ℕ)
      → p.deadline_ms ≡ deadline
      → Outcome p b now_ms (persist_at backend p now_ms deadline b)
  unfolding persist_at
  persist_at-Outcome p b now_ms none same = waits
  persist_at-Outcome p b now_ms (some deadline_ms) same =
      elim (Bool-cases (ltb now_ms deadline_ms)) [
        | inl early ↦ rw early waits
        | inr late ↦ rw late (
            persist_pending-Outcome p b now_ms deadline_ms p.pending_state same (not_ltb _ _ late)
              refl)
      ]

  -- `persist_due` does nothing before the deadline or with nothing pending; else it writes exactly the
  -- pending state and clears it, or it fails and records the failure.
  pub persist_due-Outcome :
      (p : StoragePersistence) (b : B) (now_ms : ℕ)
      → Outcome p b now_ms (persist_due backend p b now_ms)
  unfolding persist_due
  persist_due-Outcome p b now_ms = persist_at-Outcome p b now_ms p.deadline_ms refl

-- A snapshot is written once a write succeeds.
abbrev pub after_due :
    Option StorageState → Result StorageError (Option StorageWriteResult) → Option StorageState
after_due latest (ok none) = latest
after_due latest (ok (some r)) = none
after_due latest (err why) = latest

record_failure-pending :
    (p : StoragePersistence) (now_ms : ℕ)
    → (record_failure p now_ms).pending_state ≡ p.pending_state
unfolding record_failure
record_failure-pending p now_ms =
    elim (Bool-cases (leb storage_retry_failure_limit (saturating_add8 p.consecutive_failures 1))) [
      | inl e ↦ rw e refl
      | inr e ↦ rw e refl
    ]

Outcome-pending :
    {B : Type 0} (p : StoragePersistence) (b : B) (now_ms : ℕ) (latest : Option StorageState)
    (out : Result StorageError (Option StorageWriteResult) × (StoragePersistence × B))
    → Outcome p b now_ms out
    → p.pending_state ≡ latest
    → out.1.0.pending_state ≡ after_due latest out.0
unfolding clear_pending
Outcome-pending p b now_ms latest _ waits h = h
Outcome-pending p b now_ms latest _ (writes r b2 deadline_ms at late pending) h = refl
Outcome-pending p b now_ms latest _ (fails why b2 deadline_ms at late) h =
    record_failure-pending p now_ms ∙ h

-- What a flush leaves: it writes what is pending and clears it, or it leaves everything.
pub data Flushed {B : Type 0} (p : StoragePersistence)
    : Result StorageError (Option StorageWriteResult) × (StoragePersistence × B) → Type 0 where
  stays :
      (b : B) (out : Result StorageError (Option StorageWriteResult))
      → ((latest : Option StorageState) → after_due latest out ≡ latest)
      → Flushed p (out, (p, b))
  clears : (b : B) (r : StorageWriteResult) → Flushed p (ok (some r), (clear_pending p, b))

module _ {B : Type 0} (backend : StorageSlotBackend B) where
  finish_flush-Flushed :
      (p : StoragePersistence) (out : Result StorageError StorageWriteResult × B)
      → Flushed p (finish_flush backend p out)
  unfolding finish_flush
  finish_flush-Flushed p (ok r, b) = clears b r
  finish_flush-Flushed p (err why, b) = stays b (err why) (λ latest. refl)

  flush_pending-Flushed :
      (p : StoragePersistence) (pending : Option StorageState) (b : B)
      → Flushed p (flush_pending backend p pending b)
  unfolding flush_pending
  flush_pending-Flushed p none b = stays b (ok none) (λ latest. refl)
  flush_pending-Flushed p (some s) b = finish_flush-Flushed p (persist_storage_state backend b s)

  pub flush-Flushed : (p : StoragePersistence) (b : B) → Flushed p (flush backend p b)
  unfolding flush
  flush-Flushed p b = flush_pending-Flushed p p.pending_state b

Flushed-pending :
    {B : Type 0} (p : StoragePersistence) (latest : Option StorageState)
    (out : Result StorageError (Option StorageWriteResult) × (StoragePersistence × B))
    → Flushed p out
    → p.pending_state ≡ latest
    → out.1.0.pending_state ≡ after_due latest out.0
unfolding clear_pending
Flushed-pending p latest _ (stays b out same) h = h ∙ sym (same latest)
Flushed-pending p latest _ (clears b r) h = refl

flush-pending :
    {B : Type 0} (backend : StorageSlotBackend B) (p : StoragePersistence) (b : B)
    (latest : Option StorageState)
    → p.pending_state ≡ latest
    → (flush backend p b).1.0.pending_state ≡ after_due latest (flush backend p b).0
flush-pending backend p b latest h =
    Flushed-pending p latest (flush backend p b) (flush-Flushed backend p b) h

pub data Call : Type 0 where
  staging : StorageState → StoragePersistPriority → ℕ → Call
  quiescing : StorageState → ℕ → Call
  due : ℕ → Call
  flushing : Call

module _ {B : Type 0} (backend : StorageSlotBackend B) where
  -- The persistence and the backend after a call.
  unfoldable pub after : StoragePersistence × B → Call → StoragePersistence × B
  unfolding stage stage_quiesce_snapshot persist_due flush
  after (p, b) (staging s priority now_ms) = (stage p s priority now_ms, b)
  after (p, b) (quiescing s now_ms) = (stage_quiesce_snapshot p s now_ms, b)
  after (p, b) (due now_ms) = (persist_due backend p b now_ms).1
  after (p, b) flushing = (flush backend p b).1

  -- The specification: the latest snapshot that was not written yet.
  unfoldable pub unwritten :
      Option StorageState → StoragePersistence × B → Call → Option StorageState
  unfolding persist_due flush
  unwritten latest (p, b) (staging s priority now_ms) = some s
  unwritten latest (p, b) (quiescing s now_ms) = some s
  unwritten latest (p, b) (due now_ms) = after_due latest (persist_due backend p b now_ms).0
  unwritten latest (p, b) flushing = after_due latest (flush backend p b).0

  unfoldable pub run : StoragePersistence × B → List Call → StoragePersistence × B
  unfolding after
  run s [] = s
  run s (call ∷ calls) = run (after s call) calls

  unfoldable pub run_unwritten :
      Option StorageState → StoragePersistence × B → List Call → Option StorageState
  unfolding after unwritten
  run_unwritten latest s [] = latest
  run_unwritten latest s (call ∷ calls) =
      run_unwritten (unwritten latest s call) (after s call) calls

  step-Refines :
      (latest : Option StorageState) (p : StoragePersistence) (b : B) (call : Call)
      → p.pending_state ≡ latest
      → (after (p, b) call).0.pending_state ≡ unwritten latest (p, b) call
  unfolding after unwritten stage stage_quiesce_snapshot
  step-Refines latest p b (staging s priority now_ms) h = refl
  step-Refines latest p b (quiescing s now_ms) h =
      elim (Bool-cases (is_new_snapshot p.pending_state s)) [
        | inl e ↦ rw e refl
        | inr e ↦ rw e refl
      ]
  step-Refines latest p b (due now_ms) h =
      Outcome-pending p b now_ms latest (persist_due backend p b now_ms)
        (persist_due-Outcome backend p b now_ms) h
  step-Refines latest p b flushing h = flush-pending backend p b latest h

  run-Refines_from :
      (latest : Option StorageState) (s : StoragePersistence × B) (calls : List Call)
      → s.0.pending_state ≡ latest
      → (run s calls).0.pending_state ≡ run_unwritten latest s calls
  unfolding run run_unwritten
  run-Refines_from latest s [] h = h
  run-Refines_from latest s (call ∷ calls) h =
      run-Refines_from (unwritten latest s call) (after s call) calls
        (step-Refines latest s.0 s.1 call h)

  -- After any calls on a new object, over any backend, what is pending is the latest snapshot that was
  -- handed in and not written yet: a later snapshot replaces an earlier one, a failed write loses
  -- nothing, and a write that succeeds clears it.
  pub run-Refines :
      (normal_ms lazy_ms : ℕ) (b : B) (calls : List Call)
      → (run (new_persistence normal_ms lazy_ms, b) calls).0.pending_state
        ≡ run_unwritten none (new_persistence normal_ms lazy_ms, b) calls
  unfolding new_persistence
  run-Refines normal_ms lazy_ms b calls =
      run-Refines_from none (new_persistence normal_ms lazy_ms, b) calls refl
