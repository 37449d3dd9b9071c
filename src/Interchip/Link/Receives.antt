-- ===== src/Interchip/Link/Receives.antt =====
-- What `ReliableReceiver` (src/interchip/reliable.rs) makes of a cell, given how many cells of the
-- session it has accepted.
use hidshift.Prelude.{ℕ_discrete, ℕ, suc, ◌≡◌, ◌≢◌, ◌⊎◌, Bool, true, false, [], ◌∷◌, arith}
use hidshift.Interchip.Cell.{SpiCell}
use hidshift.Interchip.Sequence.{acknowledged, number, next_sequence_lem}
use hidshift.Interchip.Receiver.{
  ReliableReceiver, accepted, receive, differs, receive_numbered, enter_session,
}
use hidshift.Interchip.Link.{passed_on}

-- The receiver's half: it has accepted the first `n` cells of the session.
abbrev pub Receives : ℕ → ℕ → ReliableReceiver → Type 0
Receives session n r =
    ((differs r.session_id session ≡ true) × (n ≡ 0))
    ⊎ ((differs r.session_id session ≡ false) × (r.cumulative_ack ≡ acknowledged n))

accepts :
    (n sequence : ℕ) (r : ReliableReceiver) (changed : Bool)
    → r.cumulative_ack ≡ acknowledged n
    → sequence ≡ number n
    → receive_numbered r changed sequence
      ≡ (accepted changed sequence, record r { cumulative_ack = sequence })
unfolding receive_numbered
accepts n sequence r changed h e = ground (arith, next_sequence_lem n)

refuses :
    (n sequence : ℕ) (r : ReliableReceiver) (changed : Bool) (c : SpiCell)
    → r.cumulative_ack ≡ acknowledged n
    → sequence ≢ number n
    → (passed_on (receive_numbered r changed sequence).0 c ≡ [])
      × ((receive_numbered r changed sequence).1 ≡ r)
unfolding receive_numbered
refuses n sequence r changed c h e = ground (arith, next_sequence_lem n)

-- What `receive` does is settled by the receiver after the session check.
Receives-enter :
    (session n : ℕ) (r : ReliableReceiver)
    → Receives session n r
    → ((enter_session r session).cumulative_ack ≡ acknowledged n)
      × (differs (enter_session r session).session_id session ≡ false)
unfolding enter_session
Receives-enter session n r v = ground arith

-- A receiver that has `n` cells accepts the cell of index `n` and no other.
pub receive_lem :
    (session n : ℕ) (r : ReliableReceiver) (c : SpiCell)
    → Receives session n r
    → c.header.session_id ≡ session
    → ((c.header.tx_sequence ≡ number n)
        × (passed_on (receive r c).0 c ≡ c.payload ∷ [])
        × Receives session (suc n) (receive r c).1)
      ⊎ ((c.header.tx_sequence ≢ number n)
          × (passed_on (receive r c).0 c ≡ [])
          × Receives session n (receive r c).1)
unfolding receive
receive_lem session n r c v e =
    let entered = rw (← e) at (Receives-enter session n r v) in
    let r' = enter_session r c.header.session_id in
    let changed = differs r.session_id c.header.session_id in
    elim (ℕ_discrete c.header.tx_sequence (number n)) [
      | yes hit ↦ ground (arith, accepts n c.header.tx_sequence r' changed, entered)
      | no miss ↦ ground (arith, refuses n c.header.tx_sequence r' changed c, entered)
    ]
