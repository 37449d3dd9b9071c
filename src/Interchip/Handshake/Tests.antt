-- ===== src/Interchip/Handshake/Tests.antt =====
-- Samples as in the unit tests of src/interchip/handshake.rs.
use hidshift.Interchip.Handshake.Arming.{AllWait, Sample, observe_all, one_transfer-AllWait}
use hidshift.Interchip.Handshake.{SpiReadyHandshake, awaiting_ready, mark_transfer_started}
use hidshift.Prelude.{List, [], arith, false, refl, true, ◌∷◌, ◌≡◌}

abbrev handshake : SpiReadyHandshake
handshake = record { phase = awaiting_ready; deassertion_timeout_ms = 5 }

abbrev high_until_14 : List Sample
high_until_14 =
    record { ready_high = true; deassertion_observed = false; now_ms = 12 }
    ∷ record { ready_high = true; deassertion_observed = false; now_ms = 14 }
    ∷ []

one_transfer-AllWait_example :
    let (actions, last) = observe_all (mark_transfer_started handshake 10) high_until_14 in
    AllWait actions × (last ≡ mark_transfer_started handshake 10)
one_transfer-AllWait_example =
    one_transfer-AllWait handshake 10 high_until_14 (refl, omega arith, (refl, omega arith, tt))
