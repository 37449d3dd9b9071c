-- ===== src/Interchip/Link/Drain.antt =====
-- The link of src/interchip/reliable.rs finishes what it has begun, by retransmission.
use hidshift.Interchip.Cell.{SpiCell}
use hidshift.Interchip.Sender.Window.{Holds, count_some-Holds}
use hidshift.Interchip.Link.Safety.{Inv, Reach-Inv, opened-Inv, payloads}
use hidshift.Interchip.Link.Resend.{
  AllDue, AllDue-none, exchange, exchanged-idle, exchanges, poll_pending-none,
}
use hidshift.Interchip.Link.Progress.{Progress, Reach-trans, exchange-Progress, polled, polled-Inv}
use hidshift.Interchip.Receiver.{ReliableReceiver, differs}
use mathlib.Core.Path.{subst}
use hidshift.Interchip.Sender.{pending_len, poll_retransmit}
use hidshift.Interchip.Link.{Link, Reach, here, next, opened, polls}
use hidshift.Prelude.{
  List, [], ap, arith, drop, inl, inr, length, length-drop, refl, suc, sym, take, true, zero, ℕ,
  ◌+◌, ◌<◌, ◌∙◌, ◌∷◌, ◌≡◌, ◌≤◌, ◌⊎◌,
}

take_all : (cs : List SpiCell) (n : ℕ) → length cs ≤ n → take n (payloads cs) ≡ payloads cs
take_all [] zero h = refl
take_all [] (suc n) h = refl
take_all (c ∷ cs) zero h = absurd (omega arith)
take_all (c ∷ cs) (suc n) h = ap (◌∷◌ c.payload) (take_all cs n (omega arith))

drop_all : (n : ℕ) (xs : List SpiCell) → length xs ≤ n → drop n xs ≡ []
drop_all zero [] h = refl
drop_all zero (x ∷ xs) h = absurd (omega arith)
drop_all (suc n) [] h = refl
drop_all (suc n) (x ∷ xs) h = drop_all n xs (omega arith)

module _ (session now_ms timeout_ms max_attempts : ℕ) where
  -- With an empty window an exchange is a poll that does nothing.
  idle-Progress :
      (base : ℕ) (l : Link)
      → Inv session base l
      → length l.sent ≤ base
      → Progress session base now_ms timeout_ms max_attempts l
          (exchange now_ms timeout_ms max_attempts l)
  unfolding exchange poll_retransmit
  idle-Progress base l i all =
      let vacant = drop_all base l.sent all in
      let i1 = polled-Inv session now_ms timeout_ms max_attempts base l i in
      subst (Progress session base now_ms timeout_ms max_attempts l)
        (sym (
          exchanged-idle l (poll_retransmit l.sender now_ms timeout_ms max_attempts) (
            poll_pending-none now_ms timeout_ms max_attempts l.sender.pending
              (subst (Holds l.sender.pending) vacant i.sends.window))))
        (record {
          inv = i1;
          due_cells =
              AllDue-none now_ms timeout_ms max_attempts
                (polled now_ms timeout_ms max_attempts l).sender.pending
                (subst (Holds (polled now_ms timeout_ms max_attempts l).sender.pending) vacant
                  i1.sends.window);
          same_sent = refl;
          reach = next here (polls now_ms timeout_ms max_attempts);
        })

  -- What comes of one exchange, with so many cells to acknowledge at most.
  one-Progress :
      (count base : ℕ) (l : Link)
      → Inv session base l
      → length l.sent ≤ base + suc count
      → AllDue now_ms timeout_ms max_attempts l.sender.pending
      → (b : ℕ) × (length l.sent ≤ b + count)
        × Progress session b now_ms timeout_ms max_attempts l
            (exchange now_ms timeout_ms max_attempts l)
  one-Progress count base l i most_left all_due =
      let left_over : (base < length l.sent) ⊎ (length l.sent ≤ base) = omega arith in
      elim left_over [
        | inl more ↦
            let (b, up, it) =
              exchange-Progress session now_ms timeout_ms max_attempts base l i more all_due in
            (b, omega (arith, up, most_left), it)
        | inr all ↦ (base, omega (arith, all), idle-Progress base l i all)
      ]

  exchanges-Progress :
      (count base : ℕ) (l : Link)
      → Inv session base l
      → length l.sent ≤ base + count
      → AllDue now_ms timeout_ms max_attempts l.sender.pending
      → (b : ℕ) × (length l.sent ≤ b)
        × Progress session b now_ms timeout_ms max_attempts l
            (exchanges now_ms timeout_ms max_attempts count l)
  unfolding exchanges
  exchanges-Progress zero base l i few all_due = (
    base,
    omega (arith, few),
    record { inv = i; due_cells = all_due; same_sent = refl; reach = here },
  )
  exchanges-Progress (suc count) base l i few all_due =
      let (b, left_over, first) = one-Progress count base l i few all_due in
      let (d, all, it) =
        exchanges-Progress count b (exchange now_ms timeout_ms max_attempts l) first.inv
          (omega (arith, left_over, ap length first.same_sent)) first.due_cells in
      (
        d,
        omega (arith, all, ap length first.same_sent),
        record {
          inv = it.inv;
          due_cells = it.due_cells;
          same_sent = it.same_sent ∙ first.same_sent;
          reach = Reach-trans first.reach it.reach;
        },
      )

-- Retransmission finishes what a session has begun. In every state that a session can get into, with
-- the time to send again come for the cells of the window and attempts left for each, as many rounds as
-- there are cells in the window, in each of which the cell that `poll_retransmit` sends gets through
-- and so does the receiver's acknowledgement, deliver every payload sent and leave the window empty.
-- They are a run of the link that sends no new cell.
pub exchanges-drain :
    (session now_ms timeout_ms max_attempts : ℕ) (r : ReliableReceiver) {l : Link}
    → differs r.session_id session ≡ true
    → Reach (opened session r) l
    → AllDue now_ms timeout_ms max_attempts l.sender.pending
    → let m = exchanges now_ms timeout_ms max_attempts (pending_len l.sender) l in
      Reach l m × (m.sent ≡ l.sent) × (m.delivered ≡ payloads l.sent) × (pending_len m.sender ≡ 0)
unfolding pending_len
exchanges-drain session now_ms timeout_ms max_attempts r {l} h reach all_due =
    let (base, i) = Reach-Inv reach (opened-Inv session r h) in
    let held = count_some-Holds l.sender.pending (drop base l.sent) i.sends.window in
    let rest = length-drop base l.sent in
    let (b, all, it) =
      exchanges-Progress session now_ms timeout_ms max_attempts (pending_len l.sender) base l i
        (omega (arith, held, rest)) all_due in
    let m = exchanges now_ms timeout_ms max_attempts (pending_len l.sender) l in
    let n = length m.delivered in
    let whole : length m.sent ≤ n = omega (arith, all, it.inv.covered, ap length it.same_sent) in
    (
      it.reach,
      it.same_sent,
      it.inv.prefix ∙ take_all m.sent n whole ∙ ap payloads it.same_sent,
      omega (
        arith,
        count_some-Holds m.sender.pending (drop b m.sent) it.inv.sends.window,
        length-drop b m.sent,
        all,
        ap length it.same_sent,
      ),
    )
