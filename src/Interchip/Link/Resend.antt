-- ===== src/Interchip/Link/Resend.antt =====
-- One retransmission over the link of src/interchip/reliable.rs that gets through, both ways.
use mathlib.Core.Path.{subst}
use hidshift.Interchip.Cell.{SpiCell}
use hidshift.Interchip.Link.{Link, delivers}
use hidshift.Interchip.Sender.Window.{Holds, shift_down-drop}
use hidshift.Prelude.{
  List, Option, [], ap, arith, drop, length, none, refl, replicate, some, suc, sym, zero, ℕ, ◌++◌,
  ◌-◌, ◌<◌, ◌∙◌, ◌∷◌, ◌≡◌, ◌≤◌,
}
use hidshift.Interchip.Sender.{
  acknowledge, PendingCell, ReliableSender, RetransmitAction, idle, link_reset_required,
  poll_pending, poll_retransmit, retry, send, shift_down,
}

-- The time to send a cell again has come, and attempts are left.
pub record IsDue (now_ms timeout_ms max_attempts : ℕ) (p : PendingCell) : Type 0 where
  pub late : timeout_ms ≤ now_ms - p.last_sent_ms
  pub left : p.attempts < max_attempts

-- Every cell of the window is due.
abbrev pub AllDue : ℕ → ℕ → ℕ → List (Option PendingCell) → Type 0
AllDue now_ms timeout_ms max_attempts [] = Unit
AllDue now_ms timeout_ms max_attempts (none ∷ xs) = AllDue now_ms timeout_ms max_attempts xs
AllDue now_ms timeout_ms max_attempts (some p ∷ xs) =
    IsDue now_ms timeout_ms max_attempts p × AllDue now_ms timeout_ms max_attempts xs

-- The sender reads the acknowledgement that the receiver holds.
abbrev pub answered : Link → Link
answered l = record l { sender = (acknowledge l.sender l.receiver.cumulative_ack).1 }

-- What becomes of a poll's answer: a cell that it sends reaches the receiver, which answers.
unfoldable pub exchanged : Link → RetransmitAction × ReliableSender → Link
exchanged l (idle, s) = record l { sender = s }
exchanged l (link_reset_required, s) = record l { sender = s }
exchanged l (send c, s) = answered (delivers (record l { sender = s }) c)

unfoldable pub exchange : ℕ → ℕ → ℕ → Link → Link
unfolding exchanged poll_retransmit
exchange now_ms timeout_ms max_attempts l =
    exchanged l (poll_retransmit l.sender now_ms timeout_ms max_attempts)

-- So many of them.
unfoldable pub exchanges : ℕ → ℕ → ℕ → ℕ → Link → Link
unfolding exchange
exchanges now_ms timeout_ms max_attempts zero l = l
exchanges now_ms timeout_ms max_attempts (suc count) l =
    exchanges now_ms timeout_ms max_attempts count (exchange now_ms timeout_ms max_attempts l)

pub exchanged-send :
    (l : Link) (out : RetransmitAction × ReliableSender) (c : SpiCell)
    → out.0 ≡ send c
    → exchanged l out ≡ answered (delivers (record l { sender = out.1 }) c)
unfolding exchanged
exchanged-send l (idle, s) c e = cc
exchanged-send l (link_reset_required, s) c e = cc
exchanged-send l (send d, s) c e =
    let same : d ≡ c = cc in ap (λ c. answered (delivers (record l { sender = s }) c)) same

pub exchanged-idle :
    (l : Link) (out : RetransmitAction × ReliableSender)
    → out.0 ≡ idle
    → exchanged l out ≡ record l { sender = out.1 }
unfolding exchanged
exchanged-idle l (idle, s) e = refl
exchanged-idle l (link_reset_required, s) e = cc
exchanged-idle l (send d, s) e = cc

module _ (now_ms timeout_ms max_attempts : ℕ) where
  retry-IsDue :
      (p : PendingCell)
      → IsDue now_ms timeout_ms max_attempts p
      → (retry p now_ms timeout_ms max_attempts).0 ≡ send p.cell
  unfolding retry
  retry-IsDue p due = ground (arith, due.late, due.left)

  -- A poll sends the oldest cell, and the others stay as they are.
  pub poll-send :
      (s : ReliableSender) (p : PendingCell) (xs : List (Option PendingCell))
      → s.pending ≡ some p ∷ xs
      → IsDue now_ms timeout_ms max_attempts p
      → ((poll_retransmit s now_ms timeout_ms max_attempts).0 ≡ send p.cell)
        × (q : PendingCell) × ((poll_retransmit s now_ms timeout_ms max_attempts).1.pending
            ≡ some q ∷ xs)
  unfolding poll_retransmit poll_pending
  poll-send s p xs e due =
      rw e (retry-IsDue p due, (retry p now_ms timeout_ms max_attempts).1, refl)

  pub poll_pending-none :
      (xs : List (Option PendingCell))
      → Holds xs []
      → (poll_pending xs now_ms timeout_ms max_attempts).0 ≡ idle
  unfolding poll_pending
  poll_pending-none [] h = refl
  poll_pending-none (none ∷ xs) h = poll_pending-none xs h
  poll_pending-none (some p ∷ xs) h = absurd h

  pub AllDue-none :
      (xs : List (Option PendingCell)) → Holds xs [] → AllDue now_ms timeout_ms max_attempts xs
  AllDue-none [] h = tt
  AllDue-none (none ∷ xs) h = AllDue-none xs h
  AllDue-none (some p ∷ xs) h = absurd h

  AllDue-drop :
      (k : ℕ) (xs : List (Option PendingCell))
      → AllDue now_ms timeout_ms max_attempts xs
      → AllDue now_ms timeout_ms max_attempts (drop k xs)
  AllDue-drop zero xs h = h
  AllDue-drop (suc k) [] h = tt
  AllDue-drop (suc k) (none ∷ xs) h = AllDue-drop k xs h
  AllDue-drop (suc k) (some p ∷ xs) (_, h) = AllDue-drop k xs h

  AllDue-replicate : (k : ℕ) → AllDue now_ms timeout_ms max_attempts (replicate k none)
  AllDue-replicate zero = tt
  AllDue-replicate (suc k) = AllDue-replicate k

  AllDue-append :
      (k : ℕ) (xs : List (Option PendingCell))
      → AllDue now_ms timeout_ms max_attempts xs
      → AllDue now_ms timeout_ms max_attempts (xs ++ replicate k none)
  AllDue-append k [] h = AllDue-replicate k
  AllDue-append k (none ∷ xs) h = AllDue-append k xs h
  AllDue-append k (some p ∷ xs) (due, h) = (due, AllDue-append k xs h)

  -- What is left of the window once its oldest cells are acknowledged is still due.
  pub AllDue-shift_down :
      (k : ℕ) (q : PendingCell) (xs ys : List (Option PendingCell))
      → ys ≡ some q ∷ xs
      → k < 4
      → length ys ≡ 4
      → AllDue now_ms timeout_ms max_attempts xs
      → AllDue now_ms timeout_ms max_attempts (shift_down (suc k) 4 0 ys)
  AllDue-shift_down k q xs ys e low four h =
      subst (AllDue now_ms timeout_ms max_attempts)
        (sym
          (shift_down-drop k ys low four ∙ ap (λ ys. drop (suc k) ys ++ replicate (suc k) none) e))
        (AllDue-append (suc k) (drop k xs) (AllDue-drop k xs h))
