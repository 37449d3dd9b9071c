-- ===== src/Interchip/Recovery.antt =====
-- src/interchip/recovery.rs: when the host stops polling a silent peer, and when a device that sees
-- no valid cell gives up. Times are u64 milliseconds.
use hidshift.Prelude.{
  Bool, Option, false, if◌then◌else◌, is_none, leb, ltb, none, saturating_add64, some, ℕ, ◌-◌,
}
pub mod Quiet
mod Tests

pub data RecoveryPhase : Type 0 where
  polling : ℕ → RecoveryPhase
  quiet : ℕ → RecoveryPhase

pub data SpiLinkRecoveryAction : Type 0 where
  poll enter_quiet stay_quiet resume_polling : SpiLinkRecoveryAction

pub record SpiLinkRecovery : Type 0 where
  pub phase : RecoveryPhase
  pub progress_timeout_ms : ℕ
  pub quiet_period_ms : ℕ

pub record SpiTransactionWatchdog : Type 0 where
  pub last_valid_or_first_transaction_ms : Option ℕ
  pub timeout_ms : ℕ

unfoldable pub new_watchdog : ℕ → SpiTransactionWatchdog
new_watchdog timeout_ms = record {
  last_valid_or_first_transaction_ms = none;
  timeout_ms = timeout_ms;
}

unfoldable pub observe_transaction : SpiTransactionWatchdog → ℕ → SpiTransactionWatchdog
observe_transaction w now_ms =
    if is_none w.last_valid_or_first_transaction_ms
    then record w { last_valid_or_first_transaction_ms = some now_ms }
    else w

unfoldable pub watchdog_valid_cell : SpiTransactionWatchdog → ℕ → SpiTransactionWatchdog
watchdog_valid_cell w now_ms = record w { last_valid_or_first_transaction_ms = some now_ms }

unfoldable pub timed_out : SpiTransactionWatchdog → ℕ → Bool
timed_out w now_ms = elim w.last_valid_or_first_transaction_ms [
  | none ↦ false
  | some last ↦ leb w.timeout_ms (now_ms - last)
]

unfoldable pub new_recovery : ℕ → ℕ → ℕ → SpiLinkRecovery
new_recovery started_ms progress_timeout_ms quiet_period_ms = record {
  phase = polling started_ms;
  progress_timeout_ms = progress_timeout_ms;
  quiet_period_ms = quiet_period_ms;
}

unfoldable pub observe_valid_cell : SpiLinkRecovery → ℕ → SpiLinkRecovery
observe_valid_cell r now_ms = elim r.phase [
  | polling last ↦ record r { phase = polling now_ms }
  | quiet until ↦ r
]

unfoldable pub advance : SpiLinkRecovery → ℕ → SpiLinkRecoveryAction × SpiLinkRecovery
advance r now_ms = elim r.phase [
  | polling last ↦
      if leb r.progress_timeout_ms (now_ms - last)
      then (enter_quiet, record r { phase = quiet (saturating_add64 now_ms r.quiet_period_ms) })
      else (poll, r)
  | quiet until ↦
      if ltb now_ms until
      then (stay_quiet, r)
      else (resume_polling, record r { phase = polling now_ms })
]
