-- ===== src/Interchip/Recovery/Quiet.antt =====
-- Runs of the two watchdogs of src/interchip/recovery.rs.
-- The calls that a running link makes.
use hidshift.Interchip.Handshake.{action}
use hidshift.Routing.Inv.{after}
use hidshift.Prelude.{
  List, Option, [], arith, false, leb, none, refl, saturating_add64, some, ℕ, ◌-◌, ◌<◌, ◌∷◌, ◌≡◌,
  ◌≤◌,
}
use hidshift.Interchip.Recovery.{
  SpiLinkRecovery, SpiLinkRecoveryAction, SpiTransactionWatchdog, advance, enter_quiet,
  new_recovery, new_watchdog, observe_transaction, observe_valid_cell, poll, polling, quiet,
  resume_polling, stay_quiet, timed_out, watchdog_valid_cell,
}

pub data Event : Type 0 where
  advances : ℕ → Event
  sees_cell : ℕ → Event

unfoldable pub step : SpiLinkRecovery → Event → Option SpiLinkRecoveryAction × SpiLinkRecovery
step r (advances now) = let (a, r') = advance r now in (some a, r')
step r (sees_cell now) = (none, observe_valid_cell r now)

-- The state after the calls, and what each `advance` answered.
unfoldable pub run : SpiLinkRecovery → List Event → List SpiLinkRecoveryAction × SpiLinkRecovery
run r [] = ([], r)
run r (e ∷ es) =
    let (a, r') = step r e in
    let (actions, last) = run r' es in
    (elim a [ none ↦ actions | some action ↦ action ∷ actions ], last)

-- Every `advance` among the calls comes before `until`.
abbrev pub Before : ℕ → List Event → Type 0
Before until [] = Unit
Before until (advances now ∷ es) = (now < until) × Before until es
Before until (sees_cell now ∷ es) = Before until es

-- Every action is `a`.
abbrev pub Only : SpiLinkRecoveryAction → List SpiLinkRecoveryAction → Type 0
Only a [] = Unit
Only a (b ∷ bs) = (b ≡ a) × Only a bs

quiet-run :
    (r : SpiLinkRecovery) (until : ℕ) (es : List Event)
    → r.phase ≡ quiet until
    → Before until es
    → Only stay_quiet (run r es).0 × ((run r es).1 ≡ r)
unfolding run step advance observe_valid_cell
quiet-run r until [] p h = (tt, refl)
quiet-run r until (advances now ∷ es) p h = ground (arith, quiet-run r until es p h.1)
quiet-run r until (sees_cell now ∷ es) p h = ground (arith, quiet-run r until es p h)

entered :
    (r : SpiLinkRecovery) (start : ℕ)
    → (advance r start).0 ≡ enter_quiet
    → let r' = (advance r start).1 in
      (r'.phase ≡ quiet (saturating_add64 start r.quiet_period_ms))
      × (r' ≡ record r { phase = r'.phase })
unfolding advance
entered r start e = ground arith

resumes :
    (r r' : SpiLinkRecovery) (until now : ℕ)
    → r' ≡ record r { phase = r'.phase }
    → r'.phase ≡ quiet until
    → until ≤ now
    → advance r' now ≡ (resume_polling, record r { phase = polling now })
unfolding advance
resumes r r' until now kept p h = ground arith

-- Once the host goes quiet it stays quiet for the whole period (or to the end of u64 time): every
-- call before that answers `stay_quiet`, whatever cells are seen, and the first `advance` from then
-- on resumes polling with a fresh progress timer.
pub quiet_period :
    (r : SpiLinkRecovery) (start now : ℕ) (es : List Event)
    → (advance r start).0 ≡ enter_quiet
    → let until = saturating_add64 start r.quiet_period_ms in
      Before until es
      → until ≤ now
      → let (actions, last) = run (advance r start).1 es in
        Only stay_quiet actions
        × (advance last now ≡ (resume_polling, record r { phase = polling now }))
quiet_period r start now es e before after =
    let r' = (advance r start).1 in
    let (phase, kept) = entered r start e in
    let (silent, same) = quiet-run r' (saturating_add64 start r.quiet_period_ms) es phase before in
    (silent, rw same (resumes r r' (saturating_add64 start r.quiet_period_ms) now kept phase after))

-- Each `advance` comes less than the timeout after the start or the last cell seen.
abbrev pub Progressing : ℕ → ℕ → List Event → Type 0
Progressing timeout last [] = Unit
Progressing timeout last (advances now ∷ es) = (now - last < timeout) × Progressing timeout last es
Progressing timeout last (sees_cell now ∷ es) = Progressing timeout now es

polling_run :
    (r : SpiLinkRecovery) (last : ℕ) (es : List Event)
    → r.phase ≡ polling last
    → Progressing r.progress_timeout_ms last es
    → Only poll (run r es).0
unfolding run step advance observe_valid_cell
polling_run r last [] p h = tt
polling_run r last (advances now ∷ es) p h = ground (arith, polling_run r last es p h.1)
polling_run r last (sees_cell now ∷ es) p h =
    ground (arith, polling_run (record r { phase = polling now }) now es refl h)

-- A link whose valid cells keep coming within the timeout is never silenced.
pub new_recovery-Only :
    (started timeout period : ℕ) (es : List Event)
    → Progressing timeout started es
    → Only poll (run (new_recovery started timeout period) es).0
unfolding new_recovery
new_recovery-Only started timeout period es h =
    polling_run (new_recovery started timeout period) started es refl h

-- What a device sees of its SPI bus.
pub data BusEvent : Type 0 where
  transacts : ℕ → BusEvent
  valid_cell : ℕ → BusEvent

pub observe : SpiTransactionWatchdog → List BusEvent → SpiTransactionWatchdog
observe w [] = w
observe w (transacts now ∷ es) = observe (observe_transaction w now) es
observe w (valid_cell now ∷ es) = observe (watchdog_valid_cell w now) es

-- The time of the last valid cell, if there was one.
abbrev pub last_valid : List BusEvent → Option ℕ
last_valid [] = none
last_valid (transacts now ∷ es) = last_valid es
last_valid (valid_cell now ∷ es) = elim (last_valid es) [
  | none ↦ some now
  | some later ↦ some later
]

-- The time of the first event of any kind.
abbrev pub first_event : List BusEvent → Option ℕ
first_event [] = none
first_event (transacts now ∷ es) = some now
first_event (valid_cell now ∷ es) = some now

abbrev or_else : Option ℕ → Option ℕ → Option ℕ
or_else none b = b
or_else (some a) b = some a

observe-armed :
    (w : SpiTransactionWatchdog) (t : ℕ) (es : List BusEvent)
    → w.last_valid_or_first_transaction_ms ≡ some t
    → observe w es
      ≡ record w { last_valid_or_first_transaction_ms = or_else (last_valid es) (some t) }
unfolding observe observe_transaction watchdog_valid_cell
observe-armed w t [] e = ground arith
observe-armed w t (transacts now ∷ es) e = ground (arith, observe-armed w t es e)
observe-armed w t (valid_cell now ∷ es) e =
    ground (
      arith,
      observe-armed (record w { last_valid_or_first_transaction_ms = some now }) now es refl,
    )

-- A device that has seen no bus event never times out. Otherwise it times out exactly when the
-- timeout has passed since the last valid cell, or, if there was none, since the first transaction.
pub timed_out_lem :
    (timeout now : ℕ) (es : List BusEvent)
    → timed_out (observe (new_watchdog timeout) es) now
      ≡ elim (or_else (last_valid es) (first_event es)) [
        | none ↦ false
        | some t ↦ leb timeout (now - t)
      ]
unfolding observe observe_transaction watchdog_valid_cell timed_out new_watchdog
timed_out_lem timeout now [] = refl
timed_out_lem timeout now (transacts t ∷ es) = ground (
  arith,
  observe-armed (record { last_valid_or_first_transaction_ms = some t; timeout_ms = timeout }) t es
      refl,
)
timed_out_lem timeout now (valid_cell t ∷ es) = ground (
  arith,
  observe-armed (record { last_valid_or_first_transaction_ms = some t; timeout_ms = timeout }) t es
      refl,
)
