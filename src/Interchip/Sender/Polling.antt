-- ===== src/Interchip/Sender/Polling.antt =====
-- How `poll_retransmit` of src/interchip/reliable.rs acts on each branch.
use mathlib.Core.Path.{subst}
use hidshift.Interchip.Sender.{
  PendingCell, ReliableSender, RetransmitAction, idle, link_reset_required, poll_pending,
  poll_retransmit, retry, send,
}
use hidshift.Prelude.{
  Bool-cases, List, Option, [], arith, inl, inr, leb, ltb, ltb→lt, none, refl, some, ℕ, ◌+◌, ◌-◌,
  ◌<◌, ◌∷◌, ◌≡◌, ◌≤◌,
}

-- The first cell that a window holds.
unfoldable pub oldest : List (Option PendingCell) → Option PendingCell
oldest [] = none
oldest (none ∷ xs) = oldest xs
oldest (some p ∷ xs) = some p

pub data Polled (p : PendingCell) (now_ms timeout_ms max_attempts : ℕ)
    : RetransmitAction → PendingCell → Type 0 where
  waits : now_ms - p.last_sent_ms < timeout_ms → Polled p now_ms timeout_ms max_attempts idle p
  exhausts :
      timeout_ms ≤ now_ms - p.last_sent_ms
      → max_attempts ≤ p.attempts
      → Polled p now_ms timeout_ms max_attempts link_reset_required p
  resends :
      {q : PendingCell}
      → timeout_ms ≤ now_ms - p.last_sent_ms
      → p.attempts < max_attempts
      → q ≡ record { cell = p.cell; last_sent_ms = now_ms; attempts = p.attempts + 1 }
      → Polled p now_ms timeout_ms max_attempts (send p.cell) q

retry-Polled :
    (p : PendingCell) (now_ms timeout_ms max_attempts : ℕ)
    → max_attempts ≤ 255
    → let (action, q) = retry p now_ms timeout_ms max_attempts in
      Polled p now_ms timeout_ms max_attempts action q
unfolding retry
retry-Polled p now timeout most h = elim (Bool-cases (ltb (now - p.last_sent_ms) timeout)) [
  | inl early ↦ rw early (waits (ltb→lt _ _ early))
  | inr due ↦ elim (Bool-cases (leb most p.attempts)) [
    | inl spent ↦ rw (due, spent) (exhausts (ground arith) (ground arith))
    | inr left ↦ rw (due, left) (resends (ground arith) (ground arith) (ground arith))
  ]
]

poll_pending-Polled :
    (now_ms timeout_ms max_attempts : ℕ) (xs : List (Option PendingCell)) (p : PendingCell)
    → max_attempts ≤ 255
    → oldest xs ≡ some p
    → let (action, ys) = poll_pending xs now_ms timeout_ms max_attempts in
      (q : PendingCell) × (oldest ys ≡ some q) × Polled p now_ms timeout_ms max_attempts action q
unfolding poll_pending oldest
poll_pending-Polled now timeout most [] p h e = absurd (ground arith)
poll_pending-Polled now timeout most (none ∷ xs) p h e =
    poll_pending-Polled now timeout most xs p h e
poll_pending-Polled now timeout most (some x ∷ xs) p h e = (
  (retry x now timeout most).1,
  refl,
  subst (λ y. Polled y now timeout most (retry x now timeout most).0 (retry x now timeout most).1)
      (let same : x ≡ p = ground arith in same) (retry-Polled x now timeout most h),
)

-- With cells in the window, a poll (of at most 255 attempts) looks at the oldest one: it stays idle
-- before the timeout, asks for a link reset once the attempts are used up, and otherwise sends that
-- cell again, unchanged, counting the attempt and restarting its timer. The session and the numbering
-- are kept.
poll_retransmit-oldest :
    (s : ReliableSender) (p : PendingCell) (now_ms timeout_ms max_attempts : ℕ)
    → max_attempts ≤ 255
    → oldest s.pending ≡ some p
    → let (action, s') = poll_retransmit s now_ms timeout_ms max_attempts in
      (q : PendingCell) × (oldest s'.pending ≡ some q)
      × Polled p now_ms timeout_ms max_attempts action q
      × (s'.next_sequence ≡ s.next_sequence)
      × (s'.session_id ≡ s.session_id)
unfolding poll_retransmit
poll_retransmit-oldest s p now timeout most h e =
    let (q, first, polled) = poll_pending-Polled now timeout most s.pending p h e in
    (q, first, polled, refl, refl)
