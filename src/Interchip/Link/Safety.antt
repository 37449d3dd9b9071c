-- ===== src/Interchip/Link/Safety.antt =====
-- What the link of src/interchip/reliable.rs guarantees in every reachable state.
use mathlib.Core.List.{append-nil}
use hidshift.Prelude.{
  length-drop, ℕ, zero, suc, ◌+◌, ◌≤◌, ◌<◌, ◌≡◌, ◌∙◌, ap, sym, inl, inr, refl, true, some, List, [],
  ◌∷◌, ◌++◌, map, arith, length, length-append, get_elem?, take, drop,
}
use hidshift.Interchip.Cell.{SpiCell, empty_cell}
use hidshift.Interchip.Sequence.{number}
use hidshift.Interchip.Sender.{ReliableSender, with_ack, pending_len}
use hidshift.Interchip.Sender.Window.{Numbered, length-Holds, count_some-Holds}
use hidshift.Interchip.Link.Receives.{Receives, receive_lem}
use hidshift.Interchip.Link.Sends.{
  set_cumulative_ack-Sends, poll_retransmit-Sends, Sends, new_sender-Sends, queue-Sends,
  acknowledge-Sends,
}
use hidshift.Interchip.Receiver.{ReliableReceiver, differs}
use hidshift.Interchip.Link.{
  acks_peer, polls, Link, Step, queues, arrives, idles, acknowledges, Reach, here, next, opened,
  delivers, max_age,
}

abbrev pub payloads : List SpiCell → List (List ℕ)
payloads = map (λ c. c.payload)

-- `base` cells are acknowledged; what is delivered is what was sent, as far as it goes, and every
-- acknowledged cell is delivered.
pub record Inv (session base : ℕ) (l : Link) : Type 0 where
  pub sends : Sends session base l.sent l.sender
  pub receives : Receives session (length l.delivered) l.receiver
  pub covered : base ≤ length l.delivered
  pub bounded : length l.delivered ≤ length l.sent
  pub prefix : l.delivered ≡ take (length l.delivered) (payloads l.sent)

pub Numbered-get :
    (session b j : ℕ) (cs : List SpiCell) {c : SpiCell}
    → Numbered session b cs
    → get_elem? cs j ≡ some c
    → (c.header.tx_sequence ≡ number (b + j)) × (c.header.session_id ≡ session) × (j < length cs)
Numbered-get session b j [] n e = absurd (ground arith)
Numbered-get session b zero (x ∷ cs) n e = ground arith
Numbered-get session b (suc j) (x ∷ cs) {c} n e =
    ground (arith, Numbered-get session (suc b) j cs {c = c} n.2 e)

take-suc :
    (n : ℕ) (cs : List SpiCell) {c : SpiCell}
    → get_elem? cs n ≡ some c
    → take (suc n) (payloads cs) ≡ take n (payloads cs) ++ c.payload ∷ []
take-suc n [] e = absurd (ground arith)
take-suc zero (x ∷ cs) e = ground arith
take-suc (suc n) (x ∷ cs) {c} e = ground (arith, take-suc n cs {c = c} e)

take-append :
    (n : ℕ) (cs : List SpiCell) (c : SpiCell)
    → n ≤ length cs
    → take n (payloads (cs ++ c ∷ [])) ≡ take n (payloads cs)
take-append zero cs c h = refl
take-append (suc n) [] c h = absurd (omega arith)
take-append (suc n) (x ∷ cs) c h = ap (◌∷◌ x.payload) (take-append n cs c (omega arith))

pub sent_bound :
    {session base : ℕ} {sent : List SpiCell} {s : ReliableSender}
    → Sends session base sent s
    → length sent ≤ base + 4
sent_bound {session} {base} {sent} {s} i =
    omega (arith, length-Holds s.pending (drop base sent) i.window, length-drop base sent, i.slots)

same_number : (n j : ℕ) → n ≤ j + max_age → j < n + 5 → number j ≡ number n → n ≡ j
same_number n j h k e = omega arith

extended :
    (session base : ℕ) (l : Link) (r : ReliableReceiver) (c : SpiCell) (p : List ℕ)
    → Inv session base l
    → p ≡ c.payload
    → get_elem? l.sent (length l.delivered) ≡ some c
    → length l.delivered < length l.sent
    → Receives session (suc (length l.delivered)) r
    → Inv session base (record l { receiver = r; delivered = l.delivered ++ p ∷ [] })
extended session base l r c p i ep at below after =
    let grows : length (l.delivered ++ p ∷ []) ≡ suc (length l.delivered) =
      omega (arith, length-append l.delivered (p ∷ [])) in
    record {
      sends = i.sends;
      receives = rw grows after;
      covered = omega (arith, grows, i.covered);
      bounded = omega (arith, grows);
      prefix =
          ap (λ k. k ++ p ∷ []) i.prefix
          ∙ ap (λ q. take (length l.delivered) (payloads l.sent) ++ q ∷ []) ep
          ∙ sym (take-suc (length l.delivered) l.sent at)
          ∙ ap (λ k. take k (payloads l.sent)) (sym grows);
    }

-- An arriving cell of the session either extends what is delivered by the next payload sent, or
-- changes neither what is delivered nor what the receiver acknowledges.
pub arrives-Inv :
    (session base j : ℕ) (l : Link) (c d : SpiCell)
    → Inv session base l
    → get_elem? l.sent j ≡ some c
    → length l.delivered ≤ j + max_age
    → d.header.tx_sequence ≡ c.header.tx_sequence
    → d.header.session_id ≡ c.header.session_id
    → d.payload ≡ c.payload
    → Inv session base (delivers l d)
arrives-Inv session base j l c d i at young en es ep =
    let (numbered, owner, below) = Numbered-get session 0 j l.sent {c = c} i.sends.numbered at in
    let n = length l.delivered in
    let index : number (0 + j) ≡ number j = ap number (omega arith) in
    elim (receive_lem session n l.receiver d i.receives (es ∙ owner)) [
      | inl (hit, out, after) ↦
          let same : n ≡ j =
            same_number n j young (omega (arith, sent_bound i.sends, i.covered))
              (sym (sym hit ∙ en ∙ numbered ∙ index)) in
          rw out (
            extended session base l _ c d.payload i ep (ap (get_elem? l.sent) same ∙ at)
              (omega (arith, same)) after)
      | inr (miss, out, after) ↦
          rw (out, append-nil)
            (record {
              sends = i.sends;
              receives = after;
              covered = i.covered;
              bounded = i.bounded;
              prefix = i.prefix;
            })
    ]

empty_cell_lem :
    (session : ℕ)
    → let c = empty_cell session in (c.header.tx_sequence ≡ 0) × (c.header.session_id ≡ session)
unfolding empty_cell
empty_cell_lem session = (refl, refl)

idles-Inv :
    (session base : ℕ) (l : Link)
    → Inv session base l
    → Inv session base (delivers l (empty_cell l.sender.session_id))
idles-Inv session base l i =
    let c = empty_cell l.sender.session_id in
    let (zero_number, owner) = empty_cell_lem l.sender.session_id in
    elim (receive_lem session (length l.delivered) l.receiver c i.receives
      (owner ∙ i.sends.in_session)) [
        | inl (hit, out, after) ↦ absurd (omega arith)
        | inr (miss, out, after) ↦
            rw (out, append-nil)
              (record {
                sends = i.sends;
                receives = after;
                covered = i.covered;
                bounded = i.bounded;
                prefix = i.prefix;
              })
      ]

pub with_ack_lem :
    (a : ℕ) (c : SpiCell)
    → let d = with_ack a c in
      (d.header.tx_sequence ≡ c.header.tx_sequence)
      × (d.header.session_id ≡ c.header.session_id)
      × (d.payload ≡ c.payload)
unfolding with_ack
with_ack_lem a c = (refl, refl, refl)

pub Step-Inv :
    {session base : ℕ} {l m : Link}
    → Step l m
    → Inv session base l
    → (b : ℕ) × (base ≤ b) × Inv session b m
Step-Inv {session} {base} {l} (queues {c} {s} payload count now e) i = (
  base,
  omega arith,
  record {
    sends = queue-Sends payload count now i.sends e;
    receives = i.receives;
    covered = i.covered;
    bounded = omega (arith, length-append l.sent (c ∷ []), i.bounded);
    prefix = i.prefix ∙ sym (take-append (length l.delivered) l.sent c i.bounded);
  },
)
Step-Inv {session} {base} {l} (arrives {c} j ack at young) i =
    let same = with_ack_lem ack c in
    (
      base,
      omega arith,
      arrives-Inv session base j l c (with_ack ack c) i at young same.0 same.1 same.2,
    )
Step-Inv {session} {base} {l} idles i = (base, omega arith, idles-Inv session base l i)
Step-Inv {session} {base} {l} (acknowledges n h k) i =
    let (b, from, sends) =
      acknowledge-Sends n i.sends (omega (arith, i.bounded)) (omega (arith, i.covered)) in
    (
      b,
      omega arith,
      record {
        sends = sends;
        receives = i.receives;
        covered = omega (arith, i.covered);
        bounded = i.bounded;
        prefix = i.prefix;
      },
    )
Step-Inv {session} {base} (acks_peer ack) i = (
  base,
  omega arith,
  record {
    sends = set_cumulative_ack-Sends ack i.sends;
    receives = i.receives;
    covered = i.covered;
    bounded = i.bounded;
    prefix = i.prefix;
  },
)
Step-Inv {session} {base} (polls now timeout most) i = (
  base,
  omega arith,
  record {
    sends = poll_retransmit-Sends now timeout most i.sends;
    receives = i.receives;
    covered = i.covered;
    bounded = i.bounded;
    prefix = i.prefix;
  },
)

pub Reach-Inv : {session : ℕ} {l m : Link} → Reach l m → Inv session 0 l → (b : ℕ) × Inv session b m
Reach-Inv here i = (0, i)
Reach-Inv (next r s) i =
    let before = Reach-Inv r i in let after = Step-Inv s before.1 in (after.0, after.2)

pub opened-Inv :
    (session : ℕ) (r : ReliableReceiver)
    → differs r.session_id session ≡ true
    → Inv session 0 (opened session r)
opened-Inv session r h = record {
  sends = new_sender-Sends session;
  receives = inl (h, refl);
  covered = omega arith;
  bounded = omega arith;
  prefix = refl;
}

-- From a session's start, whatever the wire loses, repeats, delays or reorders (up to `max_age`
-- cells), the payloads delivered are the first payloads sent, each once and in order; and the cells
-- sent but no longer in the sender's window have all been delivered.
pub delivers_in_order :
    (session : ℕ) (r : ReliableReceiver) {l : Link}
    → differs r.session_id session ≡ true
    → Reach (opened session r) l
    → (l.delivered ≡ take (length l.delivered) (payloads l.sent))
      × (length l.delivered ≤ length l.sent)
      × (length l.sent ≤ length l.delivered + pending_len l.sender)
      × (pending_len l.sender ≤ 4)
unfolding pending_len
delivers_in_order session r {l} h reach =
    let (b, i) = Reach-Inv reach (opened-Inv session r h) in
    let held = count_some-Holds l.sender.pending (drop b l.sent) i.sends.window in
    let left = length-drop b l.sent in
    (
      i.prefix,
      i.bounded,
      omega (arith, held, left, i.covered, i.sends.base_le),
      omega (
        arith,
        held,
        i.sends.slots,
        length-Holds l.sender.pending (drop b l.sent) i.sends.window,
      ),
    )
