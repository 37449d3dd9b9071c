-- ===== src/Interchip/RateBudget.antt =====
-- src/interchip/rate_budget.rs: a budget of reports per fixed interval. Times are u64 microseconds.
use hidshift.Prelude.{
  Bool, false, if◌then◌else◌, ltb, min, saturating_add64, true, u64_max, ℕ, ◌*◌, ◌-◌,
}
pub mod Rate
mod Tests

pub record FixedIntervalBudget : Type 0 where
  pub interval_us : ℕ
  pub credit_us : ℕ
  pub last_refill_us : ℕ
  pub max_credit_us : ℕ

unfoldable pub new : ℕ → ℕ → ℕ → FixedIntervalBudget
new now_us interval_us max_burst = record {
  interval_us = interval_us;
  credit_us = interval_us;
  last_refill_us = now_us;
  max_credit_us = min (interval_us * max_burst) u64_max;
}

unfoldable pub refill : FixedIntervalBudget → ℕ → FixedIntervalBudget
refill b now_us = record b {
  credit_us = min (saturating_add64 b.credit_us (now_us - b.last_refill_us)) b.max_credit_us;
  last_refill_us = now_us;
}

unfoldable pub try_take : FixedIntervalBudget → ℕ → Bool × FixedIntervalBudget
unfolding refill
try_take b now_us =
    let filled = refill b now_us in
    if ltb filled.credit_us b.interval_us
    then (false, filled)
    else (true, record filled { credit_us = filled.credit_us - b.interval_us })
