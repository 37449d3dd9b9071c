-- ===== src/Interchip/Handshake/Arming.antt =====
-- One SPI transaction for each arming of the device (src/interchip/handshake.rs).
-- A reading of the READY line: its level, the latched falling edge, and the time.
use hidshift.Prelude.{
  Bool, List, [], arith, false, if◌then◌else◌, leb, not, refl, true, ℕ, ◌-◌, ◌<◌, ◌||◌, ◌∷◌, ◌≡◌,
}
use hidshift.Interchip.Handshake.{
  SpiReadyAction, SpiReadyHandshake, cancel_transfer, mark_transfer_started, observe,
  recover_transfer, transfer, wait,
}

pub record Sample : Type 0 where
  pub ready_high : Bool
  pub deassertion_observed : Bool
  pub now_ms : ℕ

-- The device has been seen to take READY down.
abbrev pub deasserts : Sample → Bool
deasserts s = s.deassertion_observed || not s.ready_high

pub observe_all : SpiReadyHandshake → List Sample → List SpiReadyAction × SpiReadyHandshake
observe_all h [] = ([], h)
observe_all h (s ∷ ss) =
    let (a, h') = observe h s.ready_high s.deassertion_observed s.now_ms in
    let (actions, last) = observe_all h' ss in (a ∷ actions, last)

-- No sample shows READY down, and all come within the timeout.
abbrev pub StillArmed : ℕ → ℕ → List Sample → Type 0
StillArmed started timeout [] = Unit
StillArmed started timeout (s ∷ ss) =
    (deasserts s ≡ false) × (s.now_ms - started < timeout) × StillArmed started timeout ss

abbrev pub AllWait : List SpiReadyAction → Type 0
AllWait [] = Unit
AllWait (a ∷ as') = (a ≡ wait) × AllWait as'

-- After a transfer has started, no further one is allowed while READY has not been seen down and the
-- timeout has not passed: every sample answers `wait` and the handshake keeps its phase.
pub one_transfer-AllWait :
    (h : SpiReadyHandshake) (started : ℕ) (ss : List Sample)
    → StillArmed started h.deassertion_timeout_ms ss
    → let (actions, last) = observe_all (mark_transfer_started h started) ss in
      AllWait actions × (last ≡ mark_transfer_started h started)
unfolding observe_all mark_transfer_started observe
one_transfer-AllWait h started [] k = (tt, refl)
one_transfer-AllWait h started (s ∷ ss) k = ground (arith, one_transfer-AllWait h started ss k.2)

-- After a transfer has started, a sample with READY high answers `transfer` exactly when the falling
-- edge was latched, also where the low pulse fell between two samples; with no edge it answers
-- `recover_transfer` once the timeout has passed, and otherwise waits. READY low always waits, and
-- frees the handshake for the next rise.
observe_started :
    (h : SpiReadyHandshake) (started now : ℕ) (edge : Bool)
    → let g = mark_transfer_started h started in
      let freed = cancel_transfer h in
      (observe g true true now ≡ (transfer, freed))
      × (observe g true false now
          ≡ (if leb h.deassertion_timeout_ms (now - started) then recover_transfer else wait, g))
      × (observe g false edge now ≡ (wait, freed))
      × (observe freed true edge now ≡ (transfer, freed))
unfolding observe mark_transfer_started cancel_transfer
observe_started h started now edge = ground arith
