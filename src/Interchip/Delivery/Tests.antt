-- ===== src/Interchip/Delivery/Tests.antt =====
-- The run of the unit test of `ReliableDeliveryQueue` in src/interchip/reliable.rs.
use hidshift.Interchip.Delivery.{ReliableDeliveryQueue, acknowledge, retry_after_session_reset}
use hidshift.Interchip.Delivery.Order.{entries, retry_after_session_reset-entries}
use hidshift.Prelude.{[], arith, length, refl, ℕ, ◌∷◌, ◌≡◌, ◌≤◌, ◌⊎◌}

abbrev full : ReliableDeliveryQueue ℕ
full = record { inflight = 1 ∷ 2 ∷ 3 ∷ 4 ∷ []; retry = [] }

replays_unacknowledged :
    retry_after_session_reset (acknowledge full 2) ≡ record { inflight = []; retry = 3 ∷ 4 ∷ [] }
unfolding retry_after_session_reset acknowledge
replays_unacknowledged = refl

-- Two in flight and three waiting: one fits, and one stays in flight.
abbrev crowded : ReliableDeliveryQueue ℕ
crowded = record { inflight = 1 ∷ 2 ∷ []; retry = 3 ∷ 4 ∷ 5 ∷ [] }

retry_after_session_reset-entries_example :
    let q' = retry_after_session_reset crowded in
    (entries q' ≡ entries crowded)
    × (length q'.retry ≤ 4)
    × ((q'.inflight ≡ []) ⊎ (length q'.retry ≡ 4))
retry_after_session_reset-entries_example = retry_after_session_reset-entries crowded (omega arith)
