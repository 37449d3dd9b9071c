-- ===== src/Interchip/Link/Tests.antt =====
-- A short session over the link of src/interchip/reliable.rs.
use hidshift.Interchip.Link.Resend.{AllDue, exchanges}
use hidshift.Interchip.Link.Drain.{exchanges-drain}
use hidshift.Interchip.Link.Safety.{delivers_in_order, payloads}
use hidshift.Interchip.Receiver.{new_receiver, receive}
use hidshift.Interchip.Link.{Link, Reach, arrives, delivers, here, next, opened, queues}
use hidshift.Interchip.Cell.{SpiCell}
use hidshift.Interchip.Sender.{
  ReliableSender, acknowledge, build_cell, new_sender, pending_len, queue, with_ack,
}
use hidshift.Prelude.{List, [], arith, length, ok, refl, take, ℕ, ◌+◌, ◌∷◌, ◌≡◌, ◌≤◌}

abbrev start : Link
start = opened 7 new_receiver

abbrev first_payload : List ℕ
first_payload = 1 ∷ 2 ∷ []

abbrev first_cell : SpiCell
first_cell = build_cell (new_sender 7) first_payload 1

abbrev sender_after : ReliableSender
sender_after = (queue (new_sender 7) first_payload 1 10).1

abbrev queued : Link
queued = record start { sender = sender_after; sent = first_cell ∷ [] }

queues_first : queue (new_sender 7) first_payload 1 10 ≡ (ok first_cell, sender_after)
unfolding queue new_sender
queues_first = refl

-- The cell arrives twice and is delivered once.
delivered_once :
    (delivers (delivers queued first_cell) first_cell).delivered ≡ first_cell.payload ∷ []
unfolding receive build_cell new_sender new_receiver
delivered_once = refl

acknowledged_once : (acknowledge sender_after 1).0 ≡ 1
unfolding acknowledge queue new_sender
acknowledged_once = refl

session : Reach start (delivers queued (with_ack 0 first_cell))
session =
    next (next here (queues first_payload 1 10 queues_first))
      (arrives {c = first_cell} 0 0 refl (omega arith))

delivers_in_order_example :
    let l = delivers queued (with_ack 0 first_cell) in
    (l.delivered ≡ take (length l.delivered) (payloads l.sent))
    × (length l.delivered ≤ length l.sent)
    × (length l.sent ≤ length l.delivered + pending_len l.sender)
    × (pending_len l.sender ≤ 4)
unfolding new_receiver
delivers_in_order_example = delivers_in_order 7 new_receiver refl session

-- The cell is lost, and due again after 50 ms.
lost : Reach start queued
lost = next here (queues first_payload 1 10 queues_first)

lost-AllDue : AllDue 60 50 3 queued.sender.pending
unfolding queue new_sender
lost-AllDue = (record { late = omega arith; left = omega arith }, tt)

exchanges-drain_example :
    let m = exchanges 60 50 3 (pending_len queued.sender) queued in
    Reach queued m
    × (m.sent ≡ queued.sent)
    × (m.delivered ≡ payloads queued.sent)
    × (pending_len m.sender ≡ 0)
unfolding new_receiver
exchanges-drain_example = exchanges-drain 7 60 50 3 new_receiver refl lost lost-AllDue
