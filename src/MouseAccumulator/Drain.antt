-- ===== src/MouseAccumulator/Drain.antt =====
-- Taking reports from a host of src/mouse_accumulator.rs until nothing waits.
use hidshift.MouseAccumulator.{is_zero, PendingMouseState, take_state}
use hidshift.Prelude.{Bool, not, ◌||◌, ◌*◌, suc, zero, ℕ, ◌≤◌}
use hidshift.Prelude.Int.{ℤ, pos_part, neg_part}

unfoldable pub drained : ℕ → PendingMouseState → PendingMouseState
unfolding take_state
drained zero s = s
drained (suc n) s = drained n (take_state s).1

abbrev Within : ℕ → ℤ → Type 0
Within m v = (pos_part v ≤ m) × (neg_part v ≤ m)

-- No axis waits with more than `n` reports carry.
abbrev pub Fits : ℕ → PendingMouseState → Type 0
Fits n s =
    Within (n * 32767) s.x
    × Within (n * 32767) s.y
    × Within (n * 127) s.wheel
    × Within (n * 127) s.pan

abbrev waiting : PendingMouseState → Bool
waiting s = not (is_zero s.x) || not (is_zero s.y) || not (is_zero s.wheel) || not (is_zero s.pan)
