-- ===== src/Interchip/Handshake.antt =====
-- src/interchip/handshake.rs: the READY line, one SPI transaction for each time the device arms.
use hidshift.Prelude.{Bool, if◌then◌else◌, leb, not, ℕ, ◌&&◌, ◌-◌, ◌||◌}
pub mod Arming
mod Tests

pub data SpiReadyPhase : Type 0 where
  awaiting_ready : SpiReadyPhase
  awaiting_deassertion : ℕ → SpiReadyPhase

pub data SpiReadyAction : Type 0 where
  wait transfer recover_transfer : SpiReadyAction

pub record SpiReadyHandshake : Type 0 where
  pub phase : SpiReadyPhase
  pub deassertion_timeout_ms : ℕ

unfoldable pub new : ℕ → SpiReadyHandshake
new deassertion_timeout_ms = record {
  phase = awaiting_ready;
  deassertion_timeout_ms = deassertion_timeout_ms;
}

-- The phase after the check at the top of `observe`.
unfoldable pub settle : SpiReadyPhase → Bool → Bool → SpiReadyPhase
settle awaiting_ready ready_high deassertion_observed = awaiting_ready
settle (awaiting_deassertion started) ready_high deassertion_observed =
    if deassertion_observed || not ready_high then awaiting_ready else awaiting_deassertion started

unfoldable pub action : SpiReadyPhase → ℕ → Bool → ℕ → SpiReadyAction
action awaiting_ready timeout_ms ready_high now_ms = if ready_high then transfer else wait
action (awaiting_deassertion started) timeout_ms ready_high now_ms =
    if ready_high && leb timeout_ms (now_ms - started) then recover_transfer else wait

unfoldable pub observe : SpiReadyHandshake → Bool → Bool → ℕ → SpiReadyAction × SpiReadyHandshake
unfolding settle action
observe h ready_high deassertion_observed now_ms =
    let phase = settle h.phase ready_high deassertion_observed in
    (action phase h.deassertion_timeout_ms ready_high now_ms, record h { phase = phase })

unfoldable pub mark_transfer_started : SpiReadyHandshake → ℕ → SpiReadyHandshake
mark_transfer_started h now_ms = record h { phase = awaiting_deassertion now_ms }

unfoldable pub cancel_transfer : SpiReadyHandshake → SpiReadyHandshake
cancel_transfer h = record h { phase = awaiting_ready }
