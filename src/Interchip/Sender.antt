-- ===== src/Interchip/Sender.antt =====
-- `ReliableSender` of src/interchip/reliable.rs: a window of four unacknowledged cells.
-- `pending` is an array of four slots; the queue length, a usize, is below 110.
use hidshift.Prelude.{
  ℕ, zero, suc, ◌+◌, ◌-◌, ◌≡◌, min, Bool, true, false, not, Option, none, some, List, [], ◌∷◌, ◌++◌,
  ◌==◌, ltb, leb, if◌then◌else◌, length, get_or, set, replicate, Result, ok, err, is_some, is_none,
  position_from,
}
use hidshift.Interchip.Cell.{SpiCell, empty_cell, spi_cell_payload_len}
use hidshift.Interchip.Sequence.{next_sequence, spi_tx_window}
pub mod Window
pub mod Polling

pub record PendingCell : Type 0 where
  pub cell : SpiCell
  pub last_sent_ms : ℕ
  pub attempts : ℕ

pub record ReliableSender : Type 0 where
  pub session_id : ℕ
  pub next_sequence : ℕ
  pub cumulative_ack : ℕ
  pub pending : List (Option PendingCell)

pub data SenderError : Type 0 where
  payload_too_long window_full : SenderError

pub data RetransmitAction : Type 0 where
  idle : RetransmitAction
  send : SpiCell → RetransmitAction
  link_reset_required : RetransmitAction

unfoldable pub new_sender : ℕ → ReliableSender
new_sender session_id = record {
  session_id = session_id;
  next_sequence = 1;
  cumulative_ack = 0;
  pending = replicate spi_tx_window none;
}

-- `self.pending.iter().flatten().count()`
unfoldable pub count_some : List (Option PendingCell) → ℕ
count_some [] = 0
count_some (none ∷ xs) = count_some xs
count_some (some p ∷ xs) = suc (count_some xs)

unfoldable pub pending_len : ReliableSender → ℕ
unfolding count_some
pending_len s = count_some s.pending

unfoldable pub reset_session : ReliableSender → ℕ → ReliableSender
reset_session s session_id = record {
  session_id = session_id;
  next_sequence = 1;
  cumulative_ack = 0;
  pending = replicate spi_tx_window none;
}

-- The cell that `queue` builds.
unfoldable pub build_cell : ReliableSender → List ℕ → ℕ → SpiCell
unfolding empty_cell
build_cell s payload record_count = record {
  header = record (empty_cell s.session_id).header {
    tx_sequence = s.next_sequence;
    cumulative_ack = s.cumulative_ack;
    payload_len = length payload;
    record_count = record_count;
  };
  payload = payload ++ replicate (spi_cell_payload_len - length payload) 0;
}

unfoldable pub queue : ReliableSender → List ℕ → ℕ → ℕ → Result SenderError SpiCell × ReliableSender
unfolding build_cell next_sequence position_from
queue s payload record_count now_ms =
    if ltb spi_cell_payload_len (length payload)
    then (err payload_too_long, s)
    else elim (position_from is_none 0 s.pending) [
      | none ↦ (err window_full, s)
      | some slot ↦
          let cell = build_cell s payload record_count in
          (
            ok cell,
            record s {
              next_sequence = next_sequence s.next_sequence;
              pending =
                  set s.pending slot
                    (some (record { cell = cell; last_sent_ms = now_ms; attempts = 1 }));
            },
          )
    ]

-- Whether a slot holds the cell that carries `ack`.
abbrev pub carries : ℕ → Option PendingCell → Bool
carries ack none = false
carries ack (some p) = p.cell.header.tx_sequence == ack

-- `for destination in 0..SPI_TX_WINDOW`, with `left` rounds to go.
unfoldable pub shift_down : ℕ → ℕ → ℕ → List (Option PendingCell) → List (Option PendingCell)
shift_down removed zero destination pending = pending
shift_down removed (suc left) destination pending =
    shift_down removed left (suc destination)
      (set pending destination (get_or pending (destination + removed) none))

unfoldable pub acknowledge : ReliableSender → ℕ → ℕ × ReliableSender
unfolding shift_down position_from
acknowledge s ack = elim (position_from (carries ack) 0 s.pending) [
  | none ↦ (0, s)
  | some index ↦
      (index + 1, record s { pending = shift_down (index + 1) spi_tx_window 0 s.pending })
]

unfoldable pub with_ack : ℕ → SpiCell → SpiCell
with_ack ack c = record c { header = record c.header { cumulative_ack = ack } }

unfoldable pub ack_pending : ℕ → List (Option PendingCell) → List (Option PendingCell)
unfolding with_ack
ack_pending ack [] = []
ack_pending ack (none ∷ xs) = none ∷ ack_pending ack xs
ack_pending ack (some p ∷ xs) = some (record p { cell = with_ack ack p.cell }) ∷ ack_pending ack xs

unfoldable pub set_cumulative_ack : ReliableSender → ℕ → ReliableSender
unfolding ack_pending
set_cumulative_ack s ack = record s { cumulative_ack = ack; pending = ack_pending ack s.pending }

-- The body of `poll_retransmit` on the cell that it finds.
unfoldable pub retry : PendingCell → ℕ → ℕ → ℕ → RetransmitAction × PendingCell
retry p now_ms timeout_ms max_attempts =
    if ltb (now_ms - p.last_sent_ms) timeout_ms
    then (idle, p)
    else if leb max_attempts p.attempts
    then (link_reset_required, p)
    else (send p.cell, record p { attempts = min (p.attempts + 1) 255; last_sent_ms = now_ms })

-- `iter_mut().flatten().next()`: the first slot that holds a cell.
unfoldable pub poll_pending :
    List (Option PendingCell) → ℕ → ℕ → ℕ → RetransmitAction × List (Option PendingCell)
unfolding retry
poll_pending [] now_ms timeout_ms max_attempts = (idle, [])
poll_pending (none ∷ xs) now_ms timeout_ms max_attempts =
    let (action, ys) = poll_pending xs now_ms timeout_ms max_attempts in (action, none ∷ ys)
poll_pending (some p ∷ xs) now_ms timeout_ms max_attempts =
    let (action, q) = retry p now_ms timeout_ms max_attempts in (action, some q ∷ xs)

unfoldable pub poll_retransmit : ReliableSender → ℕ → ℕ → ℕ → RetransmitAction × ReliableSender
unfolding poll_pending
poll_retransmit s now_ms timeout_ms max_attempts =
    let (action, pending) = poll_pending s.pending now_ms timeout_ms max_attempts in
    (action, record s { pending = pending })
