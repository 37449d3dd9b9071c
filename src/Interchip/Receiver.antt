-- ===== src/Interchip/Receiver.antt =====
-- `ReliableReceiver` of src/interchip/reliable.rs: in-order acceptance of numbered cells.
use hidshift.Prelude.{ℕ, Bool, true, not, Option, none, some, ◌==◌, if◌then◌else◌}
use hidshift.Interchip.Cell.{SpiCell}
use hidshift.Interchip.Sequence.{next_sequence, is_recent_sequence}

pub record ReliableReceiver : Type 0 where
  pub session_id : Option ℕ
  pub cumulative_ack : ℕ

pub data ReceiveDisposition : Type 0 where
  empty : ReceiveDisposition
  session_changed : ReceiveDisposition
  accepted : Bool → ℕ → ReceiveDisposition
  duplicate : ℕ → ReceiveDisposition
  gap : ℕ → ℕ → ReceiveDisposition

unfoldable pub new_receiver : ReliableReceiver
new_receiver = record { session_id = none; cumulative_ack = 0 }

unfoldable pub reset_receiver : ReliableReceiver → ℕ → ReliableReceiver
reset_receiver r session_id = record { session_id = some session_id; cumulative_ack = 0 }

-- `self.session_id != Some(id)`
abbrev pub differs : Option ℕ → ℕ → Bool
differs none id = true
differs (some s) id = not (s == id)

-- The session check at the top of `receive`.
unfoldable pub enter_session : ReliableReceiver → ℕ → ReliableReceiver
enter_session r id =
    if differs r.session_id id then record { session_id = some id; cumulative_ack = 0 } else r

-- The rest of `receive`, once the receiver is in the session of the cell.
unfoldable pub receive_numbered :
    ReliableReceiver → Bool → ℕ → ReceiveDisposition × ReliableReceiver
unfolding next_sequence is_recent_sequence
receive_numbered r changed sequence =
    if sequence == 0
    then (if changed then session_changed else empty, r)
    else if sequence == next_sequence r.cumulative_ack
    then (accepted changed sequence, record r { cumulative_ack = sequence })
    else if is_recent_sequence sequence r.cumulative_ack
    then (duplicate r.cumulative_ack, r)
    else (gap (next_sequence r.cumulative_ack) r.cumulative_ack, r)

unfoldable pub receive : ReliableReceiver → SpiCell → ReceiveDisposition × ReliableReceiver
unfolding enter_session receive_numbered
receive r cell =
    receive_numbered (enter_session r cell.header.session_id)
      (differs r.session_id cell.header.session_id) cell.header.tx_sequence
