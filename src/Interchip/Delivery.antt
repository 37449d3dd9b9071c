-- ===== src/Interchip/Delivery.antt =====
-- `ReliableDeliveryQueue` of src/interchip/reliable.rs: the records behind the sender's window, and
-- those to send again after a session reset. A `heapless::Deque` of four is a list of at most four,
-- its front first, whose pushes fail when it is full.
use hidshift.Interchip.Sequence.{spi_tx_window}
use hidshift.Prelude.{
  Bool, List, Option, Result, [], err, if◌then◌else◌, leb, length, none, not, ok, some, suc, zero,
  ℕ, ◌++◌, ◌==◌, ◌∷◌,
}
pub mod Order
mod Tests

pub record ReliableDeliveryQueue {ℓ} (T : Type ℓ) : Type ℓ where
  pub inflight : List T
  pub retry : List T

module _ {ℓ} {T : Type ℓ} where
  -- The last entry, and the entries before it.
  unfoldable pub pop_back : List T → Option (T × List T)
  pop_back [] = none
  pop_back (x ∷ xs) = elim (pop_back xs) [
    | none ↦ some (x, [])
    | some (last, rest) ↦ some (last, x ∷ rest)
  ]

  unfoldable pub record_queued :
      ReliableDeliveryQueue T → T → Result T (Unit {0}) × ReliableDeliveryQueue T
  record_queued q value =
      if leb spi_tx_window (length q.inflight)
      then (err value, q)
      else (ok tt, record q { inflight = q.inflight ++ value ∷ [] })

  unfoldable pub pop_front : List T → List T
  pop_front [] = []
  pop_front (x ∷ xs) = xs

  -- `for _ in 0..count { pop_front }`
  unfoldable pub pop_fronts : ℕ → List T → List T
  unfolding pop_front
  pop_fronts zero xs = xs
  pop_fronts (suc count) xs = pop_fronts count (pop_front xs)

  unfoldable pub acknowledge : ReliableDeliveryQueue T → ℕ → ReliableDeliveryQueue T
  unfolding pop_fronts
  acknowledge q count = record q { inflight = pop_fronts count q.inflight }

  unfoldable pub first_retry : List T → List T → Option T × ReliableDeliveryQueue T
  first_retry inflight [] = (none, record { inflight = inflight; retry = [] })
  first_retry inflight (x ∷ xs) = (some x, record { inflight = inflight; retry = xs })

  unfoldable pub next_retry : ReliableDeliveryQueue T → Option T × ReliableDeliveryQueue T
  unfolding first_retry
  next_retry q = first_retry q.inflight q.retry

  -- The `while let` loop: each round takes one entry off the back of `inflight`, so as many rounds as
  -- it has entries are enough (`Delivery.Order`).
  unfoldable pub replay : ℕ → List T → List T → ReliableDeliveryQueue T
  unfolding pop_back
  replay zero inflight retry = record { inflight = inflight; retry = retry }
  replay (suc fuel) inflight retry = elim (pop_back inflight) [
    | none ↦ record { inflight = inflight; retry = retry }
    | some (value, rest) ↦
        let kept : ReliableDeliveryQueue T = record {
          inflight = rest ++ value ∷ [];
          retry = retry;
        } in
        let moved : ReliableDeliveryQueue T = replay fuel rest (value ∷ retry) in
        if leb spi_tx_window (length retry) then kept else moved
  ]

  unfoldable pub retry_after_session_reset : ReliableDeliveryQueue T → ReliableDeliveryQueue T
  unfolding replay
  retry_after_session_reset q = replay (length q.inflight) q.inflight q.retry

  unfoldable pub has_inflight : ReliableDeliveryQueue T → Bool
  has_inflight q = not (length q.inflight == 0)
