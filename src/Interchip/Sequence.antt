-- ===== src/Interchip/Sequence.antt =====
-- The 16-bit sequence numbers of src/interchip/reliable.rs. Zero marks a cell with no payload, so
-- the numbers go round 1 .. 65535.
use hidshift.Prelude.{
  ℕ, zero, suc, ◌+◌, ◌-◌, ◌%◌, ◌≤◌, ◌<◌, ◌≡◌, ◌≢◌, refl, Bool, false, ◌||◌, arith, ◌==◌, leb,
  if◌then◌else◌,
}

abbrev pub u16_max : ℕ
u16_max = 65535

unfoldable pub next_sequence : ℕ → ℕ
next_sequence s = if (s == u16_max) || (s == 0) then 1 else s + 1

unfoldable pub previous_sequence : ℕ → ℕ
previous_sequence s = if leb s 1 then u16_max else s - 1

abbrev pub spi_tx_window : ℕ
spi_tx_window = 4

-- `for _ in 0..SPI_TX_WINDOW`, with `left` rounds to go.
unfoldable pub recent_from : ℕ → ℕ → ℕ → Bool
recent_from zero candidate recent = false
recent_from (suc left) candidate recent =
    (candidate == recent) || recent_from left candidate (previous_sequence recent)

unfoldable pub is_recent_sequence : ℕ → ℕ → Bool
unfolding recent_from previous_sequence
is_recent_sequence candidate cumulative_ack = recent_from spi_tx_window candidate cumulative_ack

-- The number that the cell of index `n` in a session carries.
abbrev pub number : ℕ → ℕ
number n = n % 65535 + 1

-- What a receiver acknowledges when it has the first `n` cells of a session.
abbrev pub acknowledged : ℕ → ℕ
acknowledged zero = 0
acknowledged (suc n) = number n

-- A sender that starts at 1 and steps by `next_sequence` numbers its cells so, and a receiver that
-- acknowledges the first `n` expects the number of the next.
pub next_sequence_lem :
    (n : ℕ)
    → (next_sequence (number n) ≡ number (suc n)) × (next_sequence (acknowledged n) ≡ number n)
unfolding next_sequence
next_sequence_lem zero = (refl, refl)
next_sequence_lem (suc n) = (ground arith, ground arith)

-- Cells less than 65535 places apart carry different numbers.
pub number-injective : (m n : ℕ) → m < n → n < m + 65535 → number m ≢ number n
number-injective m n h k e = omega arith

previous-next_sequence :
    (s : ℕ)
    → 0 < s
    → s ≤ u16_max
    → (previous_sequence (next_sequence s) ≡ s) × (next_sequence (previous_sequence s) ≡ s)
unfolding next_sequence previous_sequence
previous-next_sequence s h k = ground arith
