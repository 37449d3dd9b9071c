-- ===== src/Storage/Persistence/Task.antt =====
-- When the storage task of src/storage.rs is told to write, there is something to write.
use mathlib.Core.Option
use hidshift.Storage.Slots.{persist_storage_state, StorageSlotBackend, StorageWriteResult}
use hidshift.Storage.{StorageError, StorageState}
use hidshift.Storage.Persistence.Staged.{
  Flushed, clears, flush-Flushed, flushing, stays, Call, Outcome, after, due, fails,
  persist_due-Outcome, quiescing, run, staging, waits, writes,
}
use hidshift.Storage.Persistence.{
  flush, await_command, finish_persist, persist_at, persist_pending, wait_for_deadline,
  StoragePersistPriority, StoragePersistence, StorageTaskPolicy, clear_pending, evaluate,
  evaluate_remaining, is_new_snapshot, is_pending, new_persistence, persist_due,
  quiesce_and_persist, record_failure, remaining_ms, stage, stage_quiesce_snapshot,
  storage_retry_failure_limit,
}
use hidshift.Prelude.{
  ap, arith, if◌then◌else◌, is_some, ltb, ok, sym, ◌-◌, ◌∙◌, Bool, Bool-cases, List, Option, Result,
  [], false, inl, inr, leb, none, refl, saturating_add8, some, true, ℕ, ◌∷◌, ◌≡◌, ◌≢◌, ◌≤◌,
}

-- A snapshot that waits has a deadline, unless the retries are suspended.
pub data IsArmed (p : StoragePersistence) : Type 0 where
  suspended : p.retry_suspended ≡ true → IsArmed p
  nothing_pending : p.pending_state ≡ none → IsArmed p
  timed : (deadline_ms : ℕ) → p.deadline_ms ≡ some deadline_ms → IsArmed p

stage-IsArmed :
    (p : StoragePersistence) (s : StorageState) (priority : StoragePersistPriority) (now_ms : ℕ)
    → IsArmed (stage p s priority now_ms)
unfolding stage
stage-IsArmed p s priority now_ms = timed _ refl

not_new :
    (pending : Option StorageState) (s : StorageState)
    → is_new_snapshot pending s ≡ false
    → pending ≢ none
not_new none s h e = cc
not_new (some old) s h e = cc

with_pending-IsArmed :
    (p : StoragePersistence) (s : StorageState)
    → is_new_snapshot p.pending_state s ≡ false
    → IsArmed p
    → IsArmed (record p { pending_state = some s })
with_pending-IsArmed p s old (suspended e) = suspended e
with_pending-IsArmed p s old (nothing_pending e) = absurd (not_new p.pending_state s old e)
with_pending-IsArmed p s old (timed deadline_ms e) = timed deadline_ms e

record_failure-IsArmed : (p : StoragePersistence) (now_ms : ℕ) → IsArmed (record_failure p now_ms)
unfolding record_failure
record_failure-IsArmed p now_ms =
    elim (Bool-cases (leb storage_retry_failure_limit (saturating_add8 p.consecutive_failures 1))) [
      | inl e ↦ rw e (suspended refl)
      | inr e ↦ rw e (timed _ refl)
    ]

Outcome-IsArmed :
    {B : Type 0} (p : StoragePersistence) (b : B) (now_ms : ℕ)
    (out : Result StorageError (Option StorageWriteResult) × (StoragePersistence × B))
    → Outcome p b now_ms out
    → IsArmed p
    → IsArmed out.1.0
unfolding clear_pending
Outcome-IsArmed p b now_ms _ waits w = w
Outcome-IsArmed p b now_ms _ (writes r b2 deadline_ms at late pending) w = nothing_pending refl
Outcome-IsArmed p b now_ms _ (fails why b2 deadline_ms at late) w = record_failure-IsArmed p now_ms

Flushed-IsArmed :
    {B : Type 0} (p : StoragePersistence)
    (out : Result StorageError (Option StorageWriteResult) × (StoragePersistence × B))
    → Flushed p out
    → IsArmed p
    → IsArmed out.1.0
unfolding clear_pending
Flushed-IsArmed p _ (stays b out same) w = w
Flushed-IsArmed p _ (clears b r) w = nothing_pending refl

some_pending :
    (pending : Option StorageState)
    → is_some pending ≡ true
    → (s : StorageState) × (pending ≡ some s)
some_pending none e = cc
some_pending (some s) e = (s, refl)

module _ {B : Type 0} (backend : StorageSlotBackend B) where
  after-IsArmed :
      (p : StoragePersistence) (b : B) (call : Call)
      → IsArmed p
      → IsArmed (after backend (p, b) call).0
  unfolding after stage_quiesce_snapshot
  after-IsArmed p b (staging s priority now_ms) w = stage-IsArmed p s priority now_ms
  after-IsArmed p b (quiescing s now_ms) w = elim (Bool-cases (is_new_snapshot p.pending_state s)) [
    | inl e ↦ rw e (timed _ refl)
    | inr e ↦ rw e (with_pending-IsArmed p s e w)
  ]
  after-IsArmed p b (due now_ms) w =
      Outcome-IsArmed p b now_ms (persist_due backend p b now_ms)
        (persist_due-Outcome backend p b now_ms) w
  after-IsArmed p b flushing w = Flushed-IsArmed p (flush backend p b) (flush-Flushed backend p b) w

  run-IsArmed_from :
      (s : StoragePersistence × B) (calls : List Call)
      → IsArmed s.0
      → IsArmed (run backend s calls).0
  unfolding run
  run-IsArmed_from s [] w = w
  run-IsArmed_from s (call ∷ calls) w =
      run-IsArmed_from (after backend s call) calls (after-IsArmed s.0 s.1 call w)

  run-IsArmed :
      (normal_ms lazy_ms : ℕ) (b : B) (calls : List Call)
      → IsArmed (run backend (new_persistence normal_ms lazy_ms, b) calls).0
  unfolding new_persistence
  run-IsArmed normal_ms lazy_ms b calls =
      run-IsArmed_from (new_persistence normal_ms lazy_ms, b) calls (nothing_pending refl)

remaining-zero :
    (policy : StorageTaskPolicy) (p : StoragePersistence) (now_ms connections : ℕ)
    (remaining : Option ℕ) {forced : Bool}
    → evaluate_remaining policy p now_ms connections remaining ≡ quiesce_and_persist forced
    → (delay_ms : ℕ) → remaining ≡ some delay_ms
    → delay_ms ≡ 0
unfolding evaluate_remaining
remaining-zero policy p now_ms connections none h delay_ms e = cc
remaining-zero policy p now_ms connections (some left) {forced = forced} h delay_ms e =
    let same : left ≡ delay_ms = cc in
    elim (Bool-cases (ltb 0 left)) [
      | inl waiting ↦
          let bad : wait_for_deadline left ≡ quiesce_and_persist forced = rw waiting at h in cc
      | inr due_now ↦ ground (arith, same)
    ]

-- What it takes for the answer to be to write.
evaluate-quiesce :
    (policy : StorageTaskPolicy) (p : StoragePersistence) (now_ms connections : ℕ) {forced : Bool}
    → evaluate policy p now_ms connections ≡ quiesce_and_persist forced
    → (is_pending p ≡ true)
      × (p.retry_suspended ≡ false)
      × ((deadline_ms : ℕ) → p.deadline_ms ≡ some deadline_ms → deadline_ms ≤ now_ms)
unfolding evaluate remaining_ms
evaluate-quiesce policy p now_ms connections {forced = forced} h =
    elim (Bool-cases (is_pending p)) [
      | inr idle ↦ let bad : await_command ≡ quiesce_and_persist forced = rw idle at h in cc
      | inl busy ↦ elim (Bool-cases p.retry_suspended) [
        | inl stopped ↦
            let bad : await_command ≡ quiesce_and_persist forced = rw (busy, stopped) at h in cc
        | inr going ↦
            let rest : evaluate_remaining policy p now_ms connections (remaining_ms p now_ms)
                ≡ quiesce_and_persist forced =
              rw (busy, going) at h in
            (
              busy,
              going,
              λ deadline_ms e.
                  let zero_left : deadline_ms - now_ms ≡ 0 =
                    remaining-zero policy p now_ms connections (remaining_ms p now_ms) rest
                      (deadline_ms - now_ms) (ap (Option.map (λ deadline. deadline - now_ms)) e) in
                  omega (arith, zero_left),
            )
      ]
    ]

module _ {B : Type 0} (backend : StorageSlotBackend B) where
  due-writes :
      (p : StoragePersistence) (b : B) (now_ms deadline_ms : ℕ) (s : StorageState)
      → p.deadline_ms ≡ some deadline_ms
      → deadline_ms ≤ now_ms
      → p.pending_state ≡ some s
      → persist_due backend p b now_ms
        ≡ finish_persist backend p now_ms (persist_storage_state backend b s)
  unfolding persist_due persist_at persist_pending
  due-writes p b now_ms deadline_ms s at late pending =
      ap (λ d. persist_at backend p now_ms d b) at
      ∙ (let passed_now : ltb now_ms deadline_ms ≡ false = ground arith in
          ap
            (λ early.
              if early
              then (ok none, (p, b))
              else persist_pending backend p now_ms p.pending_state b)
            passed_now)
      ∙ ap (λ pending. persist_pending backend p now_ms pending b) pending

  armed-writes :
      (policy : StorageTaskPolicy) (p : StoragePersistence) (now_ms connections : ℕ) {forced : Bool}
      → IsArmed p
      → evaluate policy p now_ms connections ≡ quiesce_and_persist forced
      → (s : StorageState) × (p.pending_state ≡ some s)
        × ((c : B)
            → persist_due backend p c now_ms
              ≡ finish_persist backend p now_ms (persist_storage_state backend c s))
  armed-writes policy p now_ms connections w h =
      let (busy, going, due_by) = evaluate-quiesce policy p now_ms connections h in
      let (s, pending) = some_pending p.pending_state busy in
      elim w [
        | suspended e ↦ let bad : true ≡ false = sym e ∙ going in cc
        | nothing_pending e ↦ let bad : some s ≡ none = sym pending ∙ e in cc
        | timed deadline_ms e ↦
            (s, pending, λ c. due-writes p c now_ms deadline_ms s e (due_by deadline_ms e) pending)
      ]

  -- After any calls on a new object, when the policy says to quiesce and persist, a call of
  -- `persist_due` at that time does write: there is a pending snapshot, its deadline is reached, and
  -- the call goes on with the outcome of persisting it.
  pub run-Writes :
      (policy : StorageTaskPolicy) (normal_ms lazy_ms now_ms connections : ℕ) (b : B)
      (calls : List Call) {forced : Bool}
      → evaluate policy
          (run backend (new_persistence normal_ms lazy_ms, b) calls).0
          now_ms
          connections
        ≡ quiesce_and_persist forced
      → (s : StorageState) × ((run backend
            (new_persistence normal_ms lazy_ms, b)
            calls).0.pending_state
          ≡ some s)
        × ((c : B)
            → persist_due backend
                (run backend (new_persistence normal_ms lazy_ms, b) calls).0
                c
                now_ms
              ≡ finish_persist backend
                  (run backend (new_persistence normal_ms lazy_ms, b) calls).0
                  now_ms
                  (persist_storage_state backend c s))
  run-Writes policy normal_ms lazy_ms now_ms connections b calls h =
      armed-writes policy _ now_ms connections (run-IsArmed backend normal_ms lazy_ms b calls) h
