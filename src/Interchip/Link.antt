-- ===== src/Interchip/Link.antt =====
-- One direction of the SPI link: the sender and the receiver of src/interchip/reliable.rs with a
-- lossy wire between them, as a step relation. The wire may lose, repeat, delay and reorder cells
-- and acknowledgements; what it delivers was sent, and is at most `max_age` cells old.
use hidshift.Prelude.{
  ℕ, zero, suc, ◌+◌, ◌≤◌, ◌<◌, ◌≡◌, Option, none, some, List, [], ◌∷◌, ◌++◌, length, get_elem?,
  Result, ok, err,
}
use hidshift.Interchip.Cell.{SpiCell, empty_cell}
use hidshift.Interchip.Sequence.{acknowledged}
use hidshift.Interchip.Sender.{
  ReliableSender, SenderError, new_sender, queue, acknowledge, set_cumulative_ack, poll_retransmit,
  with_ack,
}
use hidshift.Interchip.Receiver.{
  ReliableReceiver, ReceiveDisposition, accepted, empty, session_changed, duplicate, gap, receive,
  differs,
}
pub mod Sends
pub mod Receives
pub mod Resend
pub mod Progress
pub mod Drain
pub mod Safety
mod Tests

-- `sent` lists the cells that the sender has numbered and `delivered` the payloads that the receiver
-- has passed on, both oldest first.
pub record Link : Type 0 where
  pub sender : ReliableSender
  pub receiver : ReliableReceiver
  pub sent : List SpiCell
  pub delivered : List (List ℕ)

abbrev pub max_age : ℕ
max_age = 60000

-- The client of a receiver passes on the payload of a cell that is accepted.
abbrev pub passed_on : ReceiveDisposition → SpiCell → List (List ℕ)
passed_on (accepted changed ack) c = c.payload ∷ []
passed_on empty c = []
passed_on session_changed c = []
passed_on (duplicate ack) c = []
passed_on (gap expected ack) c = []

abbrev pub delivers : Link → SpiCell → Link
delivers l c = record l {
  receiver = (receive l.receiver c).1;
  delivered = l.delivered ++ passed_on (receive l.receiver c).0 c;
}

pub data Step (l : Link) : Link → Type 0 where
  queues :
      {c : SpiCell} {s : ReliableSender} (payload : List ℕ) (record_count now_ms : ℕ)
      → queue l.sender payload record_count now_ms ≡ (ok c, s)
      → Step l (record l { sender = s; sent = l.sent ++ c ∷ [] })
  -- The j-th cell arrives, with whatever acknowledgement it carried when it left.
  arrives :
      {c : SpiCell} (j ack : ℕ)
      → get_elem? l.sent j ≡ some c
      → length l.delivered ≤ j + max_age
      → Step l (delivers l (with_ack ack c))
  -- A cell with no payload arrives.
  idles : Step l (delivers l (empty_cell l.sender.session_id))
  -- The sender reads the acknowledgement of the first `n` cells.
  acknowledges :
      (n : ℕ)
      → n ≤ length l.delivered
      → length l.delivered ≤ n + max_age
      → Step l (record l { sender = (acknowledge l.sender (acknowledged n)).1 })
  acks_peer : (ack : ℕ) → Step l (record l { sender = set_cumulative_ack l.sender ack })
  polls :
      (now_ms timeout_ms max_attempts : ℕ)
      → Step l (record l { sender = (poll_retransmit l.sender now_ms timeout_ms max_attempts).1 })

pub data Reach (l : Link) : Link → Type 0 where
  here : Reach l l
  next : {m n : Link} → Reach l m → Step m n → Reach l n

-- A new session: a fresh sender, and a receiver that is in another session or in none.
abbrev pub opened : ℕ → ReliableReceiver → Link
opened session r = record { sender = new_sender session; receiver = r; sent = []; delivered = [] }
