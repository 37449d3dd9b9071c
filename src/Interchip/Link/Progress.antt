-- ===== src/Interchip/Link/Progress.antt =====
-- A retransmission over the link of src/interchip/reliable.rs that gets through makes progress.
use mathlib.Core.Path.{subst}
use mathlib.Core.List.{append-nil}
use hidshift.Interchip.Link.Resend.{
  AllDue-shift_down, exchanged-send, poll-send, AllDue, answered, exchange,
}
use hidshift.Interchip.Link.Sends.{acknowledge-pending, poll_retransmit-Sends, acknowledge-Sends}
use hidshift.Interchip.Sequence.{acknowledged, number}
use hidshift.Interchip.Sender.{PendingCell, poll_retransmit, acknowledge, with_ack}
use hidshift.Interchip.Receiver.{ReliableReceiver}
use hidshift.Interchip.Link.Receives.{Receives, receive_lem}
use hidshift.Interchip.Link.Safety.{arrives-Inv, sent_bound, Inv, Numbered-get, with_ack_lem}
use hidshift.Interchip.Sender.Window.{Alike, Holds}
use hidshift.Prelude.{
  Option, none, ◌⊎◌, ap, drop, sym, ◌+◌, ◌-◌, ◌∙◌, ◌≤◌, inl, inr, length-append, ℕ, zero, suc, ◌<◌,
  ◌≡◌, refl, some, List, [], ◌∷◌, arith, length, get_elem?,
}
use hidshift.Interchip.Cell.{SpiCell}
use hidshift.Interchip.Link.{
  max_age, polls, Step, acknowledges, arrives, delivers, Link, Reach, here, next,
}

pub Reach-trans : {l m n : Link} → Reach l m → Reach m n → Reach l n
Reach-trans r here = r
Reach-trans r (next s t) = next (Reach-trans r s) t

get_below : (xs : List SpiCell) (i : ℕ) → i < length xs → (c : SpiCell) × (get_elem? xs i ≡ some c)
get_below [] i h = absurd (omega arith)
get_below (x ∷ xs) zero h = (x, refl)
get_below (x ∷ xs) (suc i) h = get_below xs i (omega arith)

drop-get :
    (xs : List SpiCell) (b : ℕ) {c : SpiCell}
    → get_elem? xs b ≡ some c
    → drop b xs ≡ c ∷ drop (suc b) xs
drop-get [] b e = cc
drop-get (x ∷ xs) zero e = let same : x ≡ _ = ground arith in rw same refl
drop-get (x ∷ xs) (suc b) {c = c} e = drop-get xs b {c = c} e

-- The oldest slot holds the oldest cell.
Holds-first :
    (xs : List (Option PendingCell)) (c : SpiCell) (cs : List SpiCell)
    → Holds xs (c ∷ cs)
    → (p : PendingCell) × (ys : List (Option PendingCell)) × (xs ≡ some p ∷ ys) × Alike p.cell c
Holds-first [] c cs h = absurd h
Holds-first (none ∷ xs) c cs h = absurd h
Holds-first (some p ∷ xs) c cs (same, h) = (p, xs, refl, same)

Alike-with_ack : (d c : SpiCell) → Alike d c → d ≡ with_ack d.header.cumulative_ack c
unfolding with_ack
Alike-with_ack d c h = ap (with_ack d.header.cumulative_ack) h

-- A receiver that has accepted a cell of the session acknowledges what it has accepted.
Receives-ack :
    (session n : ℕ) (r : ReliableReceiver)
    → Receives session n r
    → 1 ≤ n
    → r.cumulative_ack ≡ acknowledged n
Receives-ack session n r (inl (other, e)) h = absurd (omega (arith, e, h))
Receives-ack session n r (inr (same, e)) h = e

-- The link after a poll.
abbrev pub polled : ℕ → ℕ → ℕ → Link → Link
polled now_ms timeout_ms max_attempts l = record l {
  sender = (poll_retransmit l.sender now_ms timeout_ms max_attempts).1;
}

-- With the oldest unacknowledged cell, or one like it, what is delivered reaches beyond it.
covers :
    (session base : ℕ) (l : Link) (c d : SpiCell)
    → Inv session base l
    → get_elem? l.sent base ≡ some c
    → d ≡ with_ack d.header.cumulative_ack c
    → suc base ≤ length (delivers l d).delivered
covers session base l c d i at same =
    let (numbered, owner, below) = Numbered-get session 0 base l.sent {c = c} i.sends.numbered at in
    let (sequence, session_of, payload) = with_ack_lem d.header.cumulative_ack c in
    let n = length l.delivered in
    let number_of : d.header.tx_sequence ≡ number base =
      ap (λ (c : SpiCell). c.header.tx_sequence) same
      ∙ sequence
      ∙ numbered
      ∙ ap number (omega arith) in
    let session_is : d.header.session_id ≡ session =
      ap (λ (c : SpiCell). c.header.session_id) same ∙ session_of ∙ owner in
    elim (receive_lem session n l.receiver d i.receives session_is) [
      | inl (hit, out, then_receives) ↦
          rw out (omega (arith, length-append l.delivered (d.payload ∷ []), i.covered))
      | inr (miss, out, then_receives) ↦
          let behind : (base ≡ n) ⊎ (suc base ≤ n) = omega (arith, i.covered) in
          elim behind [
            | inl e ↦ absurd (miss (number_of ∙ ap number e))
            | inr more ↦ rw (out, append-nil) more
          ]
    ]

-- What an exchange leaves: it is a run of the link, and the window still holds what is not
-- acknowledged, all of it due.
pub record Progress (session base now_ms timeout_ms max_attempts : ℕ) (l m : Link) : Type 0 where
  pub inv : Inv session base m
  pub due_cells : AllDue now_ms timeout_ms max_attempts m.sender.pending
  pub same_sent : m.sent ≡ l.sent
  pub reach : Reach l m

module _ (session now_ms timeout_ms max_attempts : ℕ) where
  pub polled-Inv :
      (base : ℕ) (l : Link)
      → Inv session base l
      → Inv session base (polled now_ms timeout_ms max_attempts l)
  polled-Inv base l i = record {
    sends = poll_retransmit-Sends now_ms timeout_ms max_attempts i.sends;
    receives = i.receives;
    covered = i.covered;
    bounded = i.bounded;
    prefix = i.prefix;
  }

  acked-Progress :
      (base j : ℕ) (l : Link) (q : PendingCell) (ys : List (Option PendingCell))
      → Inv session base l
      → suc base ≤ suc j
      → length l.delivered ≡ suc j
      → l.sender.pending ≡ some q ∷ ys
      → AllDue now_ms timeout_ms max_attempts ys
      → (b : ℕ) × (suc base ≤ b)
        × Progress session b now_ms timeout_ms max_attempts l
            (record l { sender = (acknowledge l.sender (acknowledged (suc j))).1 })
  acked-Progress base j l q ys i more count_is e all_due =
      let fits : suc j ≤ length l.sent = omega (arith, count_is, i.bounded) in
      let (b, top, sends) =
        acknowledge-Sends (suc j) i.sends fits (omega (arith, count_is, i.covered)) in
      let (k, low, shifted) = acknowledge-pending j i.sends fits (omega (arith, more)) in
      (
        b,
        omega (arith, top, more),
        record {
          inv = record {
            sends = sends;
            receives = i.receives;
            covered = omega (arith, top, more, count_is);
            bounded = i.bounded;
            prefix = i.prefix;
          };
          due_cells = subst (AllDue now_ms timeout_ms max_attempts) (sym shifted) (
              AllDue-shift_down now_ms timeout_ms max_attempts k q ys l.sender.pending e low
                i.sends.slots all_due);
          same_sent = refl;
          reach =
              next here (acknowledges (suc j) (omega (arith, count_is)) (omega (arith, count_is)));
        },
      )

  -- The receiver's answer, once it has accepted the oldest cell of the window.
  answered-Progress :
      (base : ℕ) (l : Link) (q : PendingCell) (ys : List (Option PendingCell))
      → Inv session base l
      → suc base ≤ length l.delivered
      → l.sender.pending ≡ some q ∷ ys
      → AllDue now_ms timeout_ms max_attempts ys
      → (b : ℕ) × (suc base ≤ b) × Progress session b now_ms timeout_ms max_attempts l (answered l)
  answered-Progress base l q ys i more e all_due =
      let n = length l.delivered in
      let count_is : n ≡ suc (n - 1) = omega (arith, more) in
      let ack : l.receiver.cumulative_ack ≡ acknowledged (suc (n - 1)) =
        Receives-ack session n l.receiver i.receives (omega (arith, more))
        ∙ ap acknowledged count_is in
      let (b, up, it) =
        acked-Progress base (n - 1) l q ys i (omega (arith, more)) count_is e all_due in
      (
        b,
        up,
        subst
            (λ a.
              Progress session b now_ms timeout_ms max_attempts l
                (record l { sender = (acknowledge l.sender a).1 }))
            (sym ack) it,
      )

  pub exchange-Progress :
      (base : ℕ) (l : Link)
      → Inv session base l
      → base < length l.sent
      → AllDue now_ms timeout_ms max_attempts l.sender.pending
      → (b : ℕ) × (suc base ≤ b)
        × Progress session b now_ms timeout_ms max_attempts l
            (exchange now_ms timeout_ms max_attempts l)
  unfolding exchange
  exchange-Progress base l i below all_due =
      let (c, at) = get_below l.sent base below in
      let (p, ys, e, alike) =
        Holds-first l.sender.pending c (drop (suc base) l.sent)
          (subst (Holds l.sender.pending) (drop-get l.sent base {c = c} at) i.sends.window) in
      let (first_due, rest_due) = subst (AllDue now_ms timeout_ms max_attempts) e all_due in
      let (sends_it, q, kept) =
        poll-send now_ms timeout_ms max_attempts l.sender p ys e first_due in
      let l1 = polled now_ms timeout_ms max_attempts l in
      let i1 = polled-Inv base l i in
      let ack = p.cell.header.cumulative_ack in
      let same = Alike-with_ack p.cell c alike in
      let (sequence, owner, payload) = with_ack_lem ack c in
      let young : length l.delivered ≤ base + max_age =
        omega (arith, sent_bound i.sends, i.bounded) in
      let i2 =
        arrives-Inv session base base l1 c p.cell i1 at young
          (ap (λ (c : SpiCell). c.header.tx_sequence) same ∙ sequence)
          (ap (λ (c : SpiCell). c.header.session_id) same ∙ owner)
          (ap (λ (c : SpiCell). c.payload) same ∙ payload) in
      let arrival : Step l1 (delivers l1 p.cell) =
        subst (λ d. Step l1 (delivers l1 d)) (sym same) (arrives {c = c} base ack at young) in
      let (b, up, it) =
        answered-Progress base (delivers l1 p.cell) q ys i2
          (covers session base l1 c p.cell i1 at same) kept rest_due in
      let whole =
        Reach-trans (next (next here (polls now_ms timeout_ms max_attempts)) arrival) it.reach in
      (
        b,
        up,
        subst (Progress session b now_ms timeout_ms max_attempts l)
            (sym (
              exchanged-send l (poll_retransmit l.sender now_ms timeout_ms max_attempts) p.cell
                sends_it))
            (record {
              inv = it.inv;
              due_cells = it.due_cells;
              same_sent = it.same_sent;
              reach = whole;
            }),
      )
