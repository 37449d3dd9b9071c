-- ===== src/Interchip/Delivery/Order.antt =====
-- The order of the records in `ReliableDeliveryQueue` (src/interchip/reliable.rs).
use mathlib.Core.List.{append_assoc}
use hidshift.Interchip.Delivery.{ReliableDeliveryQueue, pop_back, replay, retry_after_session_reset}
use hidshift.Prelude.{
  List, [], ap, arith, inl, inr, length, length-append, none, refl, some, suc, zero, ℕ, ◌++◌, ◌+◌,
  ◌∷◌, ◌≡◌, ◌≤◌, ◌⊎◌,
}

module _ {T : Type 0} where
  pop_back-snoc :
      (xs : List T)
      → ((xs ≡ []) × (pop_back xs ≡ none))
        ⊎ ((v : T) × (rest : List T) × (xs ≡ rest ++ v ∷ []) × (pop_back xs ≡ some (v, rest)))
  unfolding pop_back
  pop_back-snoc [] = inl (refl, refl)
  pop_back-snoc (x ∷ xs) = elim (pop_back-snoc xs) [
    | inl (e, f) ↦ inr (x, [], ap (◌∷◌ x) e, rw (f, pop_back))
    | inr (v, rest, e, f) ↦ inr (v, x ∷ rest, ap (◌∷◌ x) e, rw (f, pop_back))
  ]

  -- Every entry, in the order in which it was first queued.
  pub entries : ReliableDeliveryQueue T → List T
  entries q = q.inflight ++ q.retry

  replay-entries :
      (fuel : ℕ) (inflight again : List T)
      → entries (replay fuel inflight again) ≡ inflight ++ again
  unfolding replay entries
  replay-entries zero inflight again = refl
  replay-entries (suc fuel) inflight again = elim (pop_back-snoc inflight) [
    | inl (e, f) ↦ rw (f, replay)
    | inr (v, rest, e, f) ↦
        ground (arith, e, f, replay-entries fuel rest (v ∷ again), append_assoc rest (v ∷ []) again)
  ]

  replay_done :
      (fuel : ℕ) (inflight again : List T)
      → length inflight ≤ fuel
      → length again ≤ 4
      → let q = replay fuel inflight again in
        (length q.retry ≤ 4) × ((q.inflight ≡ []) ⊎ (length q.retry ≡ 4))
  unfolding replay
  replay_done zero [] again h k = (k, inl refl)
  replay_done zero (x ∷ xs) again h k = absurd (omega arith)
  replay_done (suc fuel) inflight again h k = elim (pop_back-snoc inflight) [
    | inl (e, f) ↦ rw (f, replay) (k, inl e)
    | inr (v, rest, e, f) ↦
        ground
          (arith, f, replay_done fuel rest (v ∷ again), ap length e, length-append rest (v ∷ []))
  ]

  no_entry : (xs : List T) {n : ℕ} → (n ≡ 4 → length xs ≡ 0) → (xs ≡ []) ⊎ (n ≡ 4) → xs ≡ []
  no_entry [] f e = refl
  no_entry (x ∷ xs) f (inl e) = e
  no_entry (x ∷ xs) f (inr e) = absurd (omega (arith, f e))

  -- A session reset loses and reorders nothing: the entries, first queued first, are the same; the
  -- retry queue keeps within its four places, and it is full if anything stays in flight.
  pub retry_after_session_reset-entries :
      (q : ReliableDeliveryQueue T)
      → length q.retry ≤ 4
      → let q' = retry_after_session_reset q in
        (entries q' ≡ entries q)
        × (length q'.retry ≤ 4)
        × ((q'.inflight ≡ []) ⊎ (length q'.retry ≡ 4))
  unfolding retry_after_session_reset entries replay
  retry_after_session_reset-entries q h =
      let done = replay_done (length q.inflight) q.inflight q.retry (omega arith) h in
      (replay-entries (length q.inflight) q.inflight q.retry, done.0, done.1)

  -- When the entries fit the four places of the retry queue, a session reset moves all of them there,
  -- those in flight before those that already waited.
  retry_after_session_reset_lem :
      (q : ReliableDeliveryQueue T)
      → length q.inflight + length q.retry ≤ 4
      → retry_after_session_reset q ≡ record { inflight = []; retry = q.inflight ++ q.retry }
  unfolding entries
  retry_after_session_reset_lem q h =
      let (same, small, ends) = retry_after_session_reset-entries q (omega arith) in
      let q' = retry_after_session_reset q in
      let total : length q'.inflight + length q'.retry ≡ length q.inflight + length q.retry =
        omega (
          arith,
          ap length same,
          length-append q'.inflight q'.retry,
          length-append q.inflight q.retry,
        ) in
      let moved : q'.inflight ≡ [] = no_entry q'.inflight (omega (arith, total, small)) ends in
      ground (arith, moved, same)
