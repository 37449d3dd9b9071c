-- ===== src/Interchip/Link/Sends.antt =====
-- How each operation of `ReliableSender` (src/interchip/reliable.rs) keeps the window in step with
-- the cells that were sent.
use native.Mathlib.Nat.{zero-add}
use hidshift.Prelude.{
  max, set, ltb, ℕ, zero, suc, ◌+◌, ◌-◌, ◌≤◌, ◌<◌, ◌≡◌, ◌≢◌, ◌∙◌, ap, sym, inl, inr, refl, none,
  some, List, [], ◌∷◌, ◌++◌, arith, length, length-append, drop, ok, Bool-cases, length-drop,
  position_from, is_none, length-set,
}
use hidshift.Interchip.Cell.{SpiCell, empty_cell}
use hidshift.Interchip.Sequence.{
  acknowledged, number, number-injective, next_sequence, next_sequence_lem,
}
use hidshift.Interchip.Sender.{
  ReliableSender, new_sender, queue, acknowledge, set_cumulative_ack, poll_retransmit, build_cell,
  carries, shift_down,
}
use hidshift.Interchip.Sender.Window.{
  Holds, Numbered, position-Holds, set-Holds, Numbered-append, Numbered-drop, position_carries,
  position_carries-none, shift_down-Holds, length-shift_down, ack_pending-Holds, length-ack_pending,
  poll_pending-Holds, length-poll_pending, length-Holds,
}
use hidshift.Interchip.Link.{max_age}

-- The sender's half: `base` cells are acknowledged, and the window holds the others.
pub record Sends (session base : ℕ) (sent : List SpiCell) (s : ReliableSender) : Type 0 where
  pub in_session : s.session_id ≡ session
  pub numbered : Numbered session 0 sent
  pub base_le : base ≤ length sent
  pub next_number : s.next_sequence ≡ number (length sent)
  pub slots : length s.pending ≡ 4
  pub window : Holds s.pending (drop base sent)

drop-append : (k : ℕ) (xs ys : List SpiCell) → k ≤ length xs → drop k (xs ++ ys) ≡ drop k xs ++ ys
drop-append zero xs ys h = refl
drop-append (suc k) [] ys h = absurd (omega arith)
drop-append (suc k) (x ∷ xs) ys h = drop-append k xs ys (omega arith)

drop-nil : (k : ℕ) → drop {A = SpiCell} k [] ≡ []
drop-nil zero = refl
drop-nil (suc k) = refl

drop-drop : (a b : ℕ) (xs : List SpiCell) → drop a (drop b xs) ≡ drop (b + a) xs
drop-drop a zero xs = ap (λ k. drop k xs) (omega arith)
drop-drop a (suc b) [] = drop-nil a ∙ sym (drop-nil (suc b + a))
drop-drop a (suc b) (x ∷ xs) =
    drop-drop a b xs
    ∙ ap (λ k. drop k (x ∷ xs)) (let e : suc (b + a) ≡ suc b + a = omega arith in e)

pub new_sender-Sends : (session : ℕ) → Sends session 0 [] (new_sender session)
unfolding new_sender
new_sender-Sends session = record {
  in_session = refl;
  numbered = tt;
  base_le = omega arith;
  next_number = refl;
  slots = refl;
  window = tt;
}

queue_found :
    (s : ReliableSender) (payload : List ℕ) (record_count now_ms slot : ℕ) {c : SpiCell}
    {s' : ReliableSender}
    → position_from is_none 0 s.pending ≡ some slot
    → queue s payload record_count now_ms ≡ (ok c, s')
    → (c ≡ build_cell s payload record_count)
      × (s' ≡ record s {
        next_sequence = next_sequence s.next_sequence;
        pending =
            set s.pending slot (some (record { cell = c; last_sent_ms = now_ms; attempts = 1 }));
      })
unfolding queue
queue_found s payload count now slot p e = ground arith

queue_full :
    (s : ReliableSender) (payload : List ℕ) (record_count now_ms : ℕ) {c : SpiCell}
    {s' : ReliableSender}
    → position_from is_none 0 s.pending ≡ none
    → queue s payload record_count now_ms ≢ (ok c, s')
unfolding queue
queue_full s payload count now p e = ground arith

build_cell_lem :
    (s : ReliableSender) (payload : List ℕ) (record_count : ℕ)
    → let c = build_cell s payload record_count in
      (c.header.tx_sequence ≡ s.next_sequence) × (c.header.session_id ≡ s.session_id)
unfolding build_cell empty_cell
build_cell_lem s payload count = (refl, refl)

pub queue-Sends :
    {session base : ℕ} {sent : List SpiCell} {s s' : ReliableSender} {c : SpiCell}
    (payload : List ℕ) (record_count now_ms : ℕ)
    → Sends session base sent s
    → queue s payload record_count now_ms ≡ (ok c, s')
    → Sends session base (sent ++ c ∷ []) s'
queue-Sends {session} {base} {sent} {s} {s' = s'} {c = c} payload count now i e =
    let cs = drop base sent in
    elim (position-Holds 0 s.pending cs i.window) [
      | inl (found, room) ↦
          let (ec, es) = queue_found s payload count now (length cs) (rw zero-add at found) e in
          let sequence : c.header.tx_sequence ≡ number (length sent) =
            ap (λ (x : SpiCell). x.header.tx_sequence) ec
            ∙ (build_cell_lem s payload count).0
            ∙ i.next_number in
          let owner : c.header.session_id ≡ session =
            ap (λ (x : SpiCell). x.header.session_id) ec
            ∙ (build_cell_lem s payload count).1
            ∙ i.in_session in
          let count_sent = length-append sent (c ∷ []) in
          rw es (record {
            in_session = i.in_session;
            numbered =
                Numbered-append session 0 sent c i.numbered (sequence ∙ ap number (omega arith))
                  owner;
            base_le = omega (arith, i.base_le, count_sent);
            next_number =
                ap next_sequence i.next_number
                ∙ (next_sequence_lem (length sent)).0
                ∙ ap number (omega (arith, count_sent));
            slots = length-set s.pending (length cs) _ ∙ i.slots;
            window = rw (drop-append base sent (c ∷ []) i.base_le) (
                set-Holds s.pending cs (record { cell = c; last_sent_ms = now; attempts = 1 })
                  i.window room);
          })
      | inr (full, _) ↦ absurd (queue_full s payload count now full e)
    ]

window-Numbered :
    {session base : ℕ} {sent : List SpiCell} {s : ReliableSender}
    → Sends session base sent s
    → Numbered session base (drop base sent)
window-Numbered {session} {base} {sent} i =
    rw zero-add at (Numbered-drop session 0 base sent i.numbered)

acknowledge-none :
    (s : ReliableSender) (a : ℕ)
    → position_from (carries a) 0 s.pending ≡ none
    → (acknowledge s a).1 ≡ s
unfolding acknowledge
acknowledge-none s a e = rw (e, acknowledge)

acknowledge_found :
    (s : ReliableSender) (a m : ℕ)
    → position_from (carries a) 0 s.pending ≡ some m
    → acknowledge s a ≡ (suc m, record s { pending = shift_down (suc m) 4 0 s.pending })
unfolding acknowledge
acknowledge_found s a m e = let one : m + 1 ≡ suc m = omega arith in rw (e, acknowledge) (rw one)

-- An acknowledgement of a cell in the window moves the slots down.
pub acknowledge-pending :
    {session base : ℕ} {sent : List SpiCell} {s : ReliableSender} (j : ℕ)
    → Sends session base sent s
    → suc j ≤ length sent
    → base ≤ j
    → (k : ℕ) × (k < 4)
      × ((acknowledge s (acknowledged (suc j))).1.pending ≡ shift_down (suc k) 4 0 s.pending)
acknowledge-pending {session} {base} {sent} {s} j i h k =
    let short = length-Holds s.pending (drop base sent) i.window in
    let rest = length-drop base sent in
    let m = j - base in
    let at : base + m ≡ j = omega (arith, k) in
    let found = rw at at (
      position_carries session 0 base m s.pending (drop base sent) i.window (window-Numbered i)
        (omega (arith, rest, h, k)) (omega (arith, short, i.slots, rest, h, k))) in
    (
      m,
      omega (arith, short, i.slots, rest, h, k),
      ap (λ (out : ℕ × ReliableSender). out.1.pending)
          (acknowledge_found s (number j) m (rw zero-add at found)),
    )

pub acknowledge-Sends :
    {session base : ℕ} {sent : List SpiCell} {s : ReliableSender} (n : ℕ)
    → Sends session base sent s
    → n ≤ length sent
    → base ≤ n + max_age
    → (b : ℕ) × (b ≡ max base n) × Sends session b sent (acknowledge s (acknowledged n)).1
acknowledge-Sends {session} {base} {sent} {s} zero i h k = (
  base,
  ground arith,
  rw
      (acknowledge-none s 0 (
        position_carries-none session 0 base 0 s.pending (drop base sent) i.window
          (window-Numbered i) (λ m l e. omega arith)))
      i,
)
acknowledge-Sends {session} {base} {sent} {s} (suc j) i h k =
    let short = length-Holds s.pending (drop base sent) i.window in
    let rest = length-drop base sent in
    elim (Bool-cases (ltb j base)) [
      | inl old ↦ (
        base,
        ground arith,
        rw
            (acknowledge-none s (number j) (
              position_carries-none session 0 base (number j) s.pending (drop base sent) i.window
                (window-Numbered i)
                (λ m l e.
                  number-injective j (base + m) (ground arith) (omega (arith, short, i.slots))
                    (sym e))))
            i,
      )
      | inr new ↦
          let m = j - base in
          let within : m < length (drop base sent) = ground arith in
          let at : base + m ≡ j = ground arith in
          let found = rw at at (
            position_carries session 0 base m s.pending (drop base sent) i.window
              (window-Numbered i) within (omega (arith, short, i.slots))) in
          let all : base + suc m ≡ suc j = omega arith in
          (
            suc j,
            ground arith,
            rw (acknowledge_found s (number j) m (rw zero-add at found)) (record {
              in_session = i.in_session;
              numbered = i.numbered;
              base_le = h;
              next_number = i.next_number;
              slots = length-shift_down (suc m) 4 0 s.pending ∙ i.slots;
              window = rw all at (
                  rw (drop-drop (suc m) base sent) at
                    (shift_down-Holds m s.pending (drop base sent) i.window within i.slots));
            }),
          )
    ]

pub set_cumulative_ack-Sends :
    {session base : ℕ} {sent : List SpiCell} {s : ReliableSender} (ack : ℕ)
    → Sends session base sent s
    → Sends session base sent (set_cumulative_ack s ack)
unfolding set_cumulative_ack
set_cumulative_ack-Sends {session} {base} {sent} {s} ack i = record {
  in_session = i.in_session;
  numbered = i.numbered;
  base_le = i.base_le;
  next_number = i.next_number;
  slots = length-ack_pending ack s.pending ∙ i.slots;
  window = ack_pending-Holds ack s.pending (drop base sent) i.window;
}

pub poll_retransmit-Sends :
    {session base : ℕ} {sent : List SpiCell} {s : ReliableSender} (now timeout most : ℕ)
    → Sends session base sent s
    → Sends session base sent (poll_retransmit s now timeout most).1
unfolding poll_retransmit
poll_retransmit-Sends {session} {base} {sent} {s} now timeout most i = record {
  in_session = i.in_session;
  numbered = i.numbered;
  base_le = i.base_le;
  next_number = i.next_number;
  slots = length-poll_pending now timeout most s.pending ∙ i.slots;
  window = poll_pending-Holds now timeout most s.pending (drop base sent) i.window;
}
