-- ===== src/Interchip/Sender/Window.antt =====
-- The window of `ReliableSender` (src/interchip/reliable.rs) against the list of the cells that it
-- holds, oldest first.
use hidshift.Prelude.{
  ℕ, zero, suc, ◌+◌, ◌≤◌, ◌<◌, ◌≡◌, ◌≢◌, ◌⊎◌, ◌∙◌, ap, inl, inr, refl, Option, none, some, List, [],
  ◌∷◌, ◌++◌, arith, length, set, drop, replicate, is_none, position_from, length-set,
}
use hidshift.Interchip.Cell.{SpiCell}
use hidshift.Interchip.Sequence.{number}
use hidshift.Interchip.Sender.{
  PendingCell, carries, shift_down, with_ack, ack_pending, poll_pending, retry, count_some,
}

-- The two cells agree but for the acknowledgement that they carry.
abbrev pub Alike : SpiCell → SpiCell → Type 0
Alike c d = with_ack 0 c ≡ with_ack 0 d

-- The slots hold the cells, from the first slot on; the slots behind them are empty.
abbrev pub Holds : List (Option PendingCell) → List SpiCell → Type 0
Holds [] [] = Unit
Holds [] (c ∷ cs) = ⊥
Holds (none ∷ xs) [] = Holds xs []
Holds (none ∷ xs) (c ∷ cs) = ⊥
Holds (some p ∷ xs) [] = ⊥
Holds (some p ∷ xs) (c ∷ cs) = Alike p.cell c × Holds xs cs

-- The cells belong to the session and carry the numbers from that of index `b` on.
abbrev pub Numbered : ℕ → ℕ → List SpiCell → Type 0
Numbered session b [] = Unit
Numbered session b (c ∷ cs) =
    (c.header.tx_sequence ≡ number b)
    × (c.header.session_id ≡ session)
    × Numbered session (suc b) cs

tx_sequence_of_Alike : (c d : SpiCell) → Alike c d → c.header.tx_sequence ≡ d.header.tx_sequence
unfolding with_ack
tx_sequence_of_Alike c d e = ap (λ (x : SpiCell). x.header.tx_sequence) e

pub length-Holds :
    (xs : List (Option PendingCell)) (cs : List SpiCell) → Holds xs cs → length cs ≤ length xs
length-Holds [] [] h = omega arith
length-Holds [] (c ∷ cs) h = absurd h
length-Holds (none ∷ xs) [] h = omega arith
length-Holds (none ∷ xs) (c ∷ cs) h = absurd h
length-Holds (some p ∷ xs) [] h = absurd h
length-Holds (some p ∷ xs) (c ∷ cs) h = omega (arith, length-Holds xs cs h.1)

Holds-replicate : (n : ℕ) → Holds (replicate n none) []
Holds-replicate zero = tt
Holds-replicate (suc n) = Holds-replicate n

-- The free slot that `queue` finds is the one behind the cells.
pub position-Holds :
    (i : ℕ) (xs : List (Option PendingCell)) (cs : List SpiCell)
    → Holds xs cs
    → ((position_from is_none i xs ≡ some (i + length cs)) × (length cs < length xs))
      ⊎ ((position_from is_none i xs ≡ none) × (length cs ≡ length xs))
unfolding position_from
position-Holds i [] [] h = inr (refl, refl)
position-Holds i [] (c ∷ cs) h = absurd h
position-Holds i (none ∷ xs) [] h = inl (ground arith, omega arith)
position-Holds i (none ∷ xs) (c ∷ cs) h = absurd h
position-Holds i (some p ∷ xs) [] h = absurd h
position-Holds i (some p ∷ xs) (c ∷ cs) h = ground (arith, position-Holds (suc i) xs cs h.1)

pub set-Holds :
    (xs : List (Option PendingCell)) (cs : List SpiCell) (p : PendingCell)
    → Holds xs cs
    → length cs < length xs
    → Holds (set xs (length cs) (some p)) (cs ++ p.cell ∷ [])
set-Holds [] cs p h k = absurd (omega arith)
set-Holds (none ∷ xs) [] p h k = (refl, h)
set-Holds (none ∷ xs) (c ∷ cs) p h k = absurd h
set-Holds (some q ∷ xs) [] p h k = absurd h
set-Holds (some q ∷ xs) (c ∷ cs) p h k = (h.0, set-Holds xs cs p h.1 (omega arith))

pub Numbered-append :
    (session b : ℕ) (cs : List SpiCell) (c : SpiCell)
    → Numbered session b cs
    → c.header.tx_sequence ≡ number (b + length cs)
    → c.header.session_id ≡ session
    → Numbered session b (cs ++ c ∷ [])
Numbered-append session b [] c h e s = (e ∙ ap number (omega arith), s, tt)
Numbered-append session b (d ∷ cs) c h e s =
    (h.0, h.1, Numbered-append session (suc b) cs c h.2 (e ∙ ap number (omega arith)) s)

pub Numbered-drop :
    (session b k : ℕ) (cs : List SpiCell)
    → Numbered session b cs
    → Numbered session (b + k) (drop k cs)
Numbered-drop session b zero cs h = let e : b ≡ b + zero = omega arith in rw e at h
Numbered-drop session b (suc k) [] h = tt
Numbered-drop session b (suc k) (c ∷ cs) h =
    let e : suc b + k ≡ b + suc k = omega arith in rw e at (Numbered-drop session (suc b) k cs h.2)

module _ (session : ℕ) where
  -- The slot that an acknowledgement of a held cell is found in.
  pub position_carries :
      (i b m : ℕ) (xs : List (Option PendingCell)) (cs : List SpiCell)
      → Holds xs cs
      → Numbered session b cs
      → m < length cs
      → m < 65535
      → position_from (carries (number (b + m))) i xs ≡ some (i + m)
  unfolding position_from
  position_carries i b m [] [] h n k l = absurd (omega arith)
  position_carries i b m [] (c ∷ cs) h n k l = absurd h
  position_carries i b m (none ∷ xs) [] h n k l = absurd (omega arith)
  position_carries i b m (none ∷ xs) (c ∷ cs) h n k l = absurd h
  position_carries i b m (some p ∷ xs) [] h n k l = absurd h
  position_carries i b zero (some p ∷ xs) (c ∷ cs) h n k l =
      ground (arith, tx_sequence_of_Alike p.cell c h.0)
  position_carries i b (suc m) (some p ∷ xs) (c ∷ cs) h n k l =
      let e : suc b + m ≡ b + suc m = omega arith in
      let rest =
        rw e at (position_carries (suc i) (suc b) m xs cs h.1 n.2 (omega arith) (omega arith)) in
      ground (arith, rest, tx_sequence_of_Alike p.cell c h.0)

  pub position_carries-none :
      (i b a : ℕ) (xs : List (Option PendingCell)) (cs : List SpiCell)
      → Holds xs cs
      → Numbered session b cs
      → ((m : ℕ) → m < length cs → number (b + m) ≢ a)
      → position_from (carries a) i xs ≡ none
  unfolding position_from
  position_carries-none i b a [] cs h n k = refl
  position_carries-none i b a (none ∷ xs) [] h n k = position_carries-none (suc i) b a xs [] h n k
  position_carries-none i b a (none ∷ xs) (c ∷ cs) h n k = absurd h
  position_carries-none i b a (some p ∷ xs) [] h n k = absurd h
  position_carries-none i b a (some p ∷ xs) (c ∷ cs) h n k =
      let later = λ (m : ℕ) (l : m < length cs) (e : number (suc b + m) ≡ a).
        k (suc m) (omega arith) (ap number (omega arith) ∙ e) in
      ground (
        arith,
        position_carries-none (suc i) (suc b) a xs cs h.1 n.2 later,
        tx_sequence_of_Alike p.cell c h.0,
        first (k 0 (omega arith)),
      )
    where
      first : number (b + 0) ≢ a → number b ≢ a
      first f e = f (ap number (omega arith) ∙ e)

-- Moving the slots down by `k` drops the `k` oldest cells.
shifted : ℕ → List (Option PendingCell) → List (Option PendingCell)
shifted k xs = drop k xs ++ replicate k none

shift_down_four :
    (k : ℕ) (xs : List (Option PendingCell))
    → k < 4
    → length xs ≡ 4
    → shift_down (suc k) 4 0 xs ≡ shifted (suc k) xs
unfolding shift_down shifted
shift_down_four k [] h l = absurd (omega arith)
shift_down_four k (x ∷ []) h l = absurd (omega arith)
shift_down_four k (x ∷ y ∷ []) h l = absurd (omega arith)
shift_down_four k (x ∷ y ∷ z ∷ []) h l = absurd (omega arith)
shift_down_four zero (x ∷ y ∷ z ∷ w ∷ []) h l = refl
shift_down_four (suc zero) (x ∷ y ∷ z ∷ w ∷ []) h l = refl
shift_down_four (suc (suc zero)) (x ∷ y ∷ z ∷ w ∷ []) h l = refl
shift_down_four (suc (suc (suc zero))) (x ∷ y ∷ z ∷ w ∷ []) h l = refl
shift_down_four (suc (suc (suc (suc k)))) (x ∷ y ∷ z ∷ w ∷ []) h l = absurd (omega arith)
shift_down_four k (x ∷ y ∷ z ∷ w ∷ v ∷ xs) h l = absurd (omega arith)

pub shift_down-drop :
    (k : ℕ) (xs : List (Option PendingCell))
    → k < 4
    → length xs ≡ 4
    → shift_down (suc k) 4 0 xs ≡ drop (suc k) xs ++ replicate (suc k) none
unfolding shifted
shift_down-drop k xs h l = shift_down_four k xs h l

Holds-append_none :
    (xs : List (Option PendingCell)) (cs : List SpiCell) (k : ℕ)
    → Holds xs cs
    → Holds (xs ++ replicate k none) cs
Holds-append_none [] [] k h = Holds-replicate k
Holds-append_none [] (c ∷ cs) k h = absurd h
Holds-append_none (none ∷ xs) [] k h = Holds-append_none xs [] k h
Holds-append_none (none ∷ xs) (c ∷ cs) k h = absurd h
Holds-append_none (some p ∷ xs) [] k h = absurd h
Holds-append_none (some p ∷ xs) (c ∷ cs) k h = (h.0, Holds-append_none xs cs k h.1)

drop-Holds :
    (k : ℕ) (xs : List (Option PendingCell)) (cs : List SpiCell)
    → Holds xs cs
    → k ≤ length cs
    → Holds (drop k xs) (drop k cs)
drop-Holds zero xs cs h l = h
drop-Holds (suc k) xs [] h l = absurd (omega arith)
drop-Holds (suc k) [] (c ∷ cs) h l = absurd h
drop-Holds (suc k) (none ∷ xs) (c ∷ cs) h l = absurd h
drop-Holds (suc k) (some p ∷ xs) (c ∷ cs) h l = drop-Holds k xs cs h.1 (omega arith)

pub shift_down-Holds :
    (k : ℕ) (xs : List (Option PendingCell)) (cs : List SpiCell)
    → Holds xs cs
    → k < length cs
    → length xs ≡ 4
    → Holds (shift_down (suc k) 4 0 xs) (drop (suc k) cs)
unfolding shifted
shift_down-Holds k xs cs h l e =
    let short = length-Holds xs cs h in
    rw (shift_down_four k xs (omega arith) e)
      (Holds-append_none (drop (suc k) xs) (drop (suc k) cs) (suc k) (drop-Holds (suc k) xs cs h l))

pub length-shift_down :
    (removed left destination : ℕ) (xs : List (Option PendingCell))
    → length (shift_down removed left destination xs) ≡ length xs
unfolding shift_down
length-shift_down removed zero destination xs = refl
length-shift_down removed (suc left) destination xs =
    length-shift_down removed left (suc destination) _ ∙ length-set xs destination _

pub ack_pending-Holds :
    (a : ℕ) (xs : List (Option PendingCell)) (cs : List SpiCell)
    → Holds xs cs
    → Holds (ack_pending a xs) cs
unfolding ack_pending with_ack
ack_pending-Holds a [] cs h = h
ack_pending-Holds a (none ∷ xs) [] h = ack_pending-Holds a xs [] h
ack_pending-Holds a (none ∷ xs) (c ∷ cs) h = absurd h
ack_pending-Holds a (some p ∷ xs) [] h = absurd h
ack_pending-Holds a (some p ∷ xs) (c ∷ cs) h = (h.0, ack_pending-Holds a xs cs h.1)

pub length-ack_pending :
    (a : ℕ) (xs : List (Option PendingCell)) → length (ack_pending a xs) ≡ length xs
unfolding ack_pending
length-ack_pending a [] = refl
length-ack_pending a (none ∷ xs) = ap suc (length-ack_pending a xs)
length-ack_pending a (some p ∷ xs) = ap suc (length-ack_pending a xs)

retry_cell : (p : PendingCell) (now timeout most : ℕ) → (retry p now timeout most).1.cell ≡ p.cell
unfolding retry
retry_cell p now timeout most = ground arith

pub poll_pending-Holds :
    (now timeout most : ℕ) (xs : List (Option PendingCell)) (cs : List SpiCell)
    → Holds xs cs
    → Holds (poll_pending xs now timeout most).1 cs
unfolding poll_pending
poll_pending-Holds now timeout most [] cs h = h
poll_pending-Holds now timeout most (none ∷ xs) [] h = poll_pending-Holds now timeout most xs [] h
poll_pending-Holds now timeout most (none ∷ xs) (c ∷ cs) h = absurd h
poll_pending-Holds now timeout most (some p ∷ xs) [] h = absurd h
poll_pending-Holds now timeout most (some p ∷ xs) (c ∷ cs) h =
    (ap (with_ack 0) (retry_cell p now timeout most) ∙ h.0, h.1)

pub length-poll_pending :
    (now timeout most : ℕ) (xs : List (Option PendingCell))
    → length (poll_pending xs now timeout most).1 ≡ length xs
unfolding poll_pending
length-poll_pending now timeout most [] = refl
length-poll_pending now timeout most (none ∷ xs) = ap suc (length-poll_pending now timeout most xs)
length-poll_pending now timeout most (some p ∷ xs) = refl

pub count_some-Holds :
    (xs : List (Option PendingCell)) (cs : List SpiCell) → Holds xs cs → count_some xs ≡ length cs
unfolding count_some
count_some-Holds [] [] h = refl
count_some-Holds [] (c ∷ cs) h = absurd h
count_some-Holds (none ∷ xs) [] h = count_some-Holds xs [] h
count_some-Holds (none ∷ xs) (c ∷ cs) h = absurd h
count_some-Holds (some p ∷ xs) [] h = absurd h
count_some-Holds (some p ∷ xs) (c ∷ cs) h = ap suc (count_some-Holds xs cs h.1)
