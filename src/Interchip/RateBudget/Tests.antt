-- ===== src/Interchip/RateBudget/Tests.antt =====
-- Budgets as in the unit tests of src/interchip/rate_budget.rs.
use hidshift.Interchip.RateBudget.{FixedIntervalBudget, new, try_take}
use hidshift.Interchip.RateBudget.Rate.{granted, granted-new}
use hidshift.Prelude.{[], arith, refl, ◌*◌, ◌+◌, ◌-◌, ◌∷◌, ◌≡◌, ◌≤◌}

abbrev budget : FixedIntervalBudget
budget = record {
  interval_us = 1000;
  credit_us = 1000;
  last_refill_us = 2000;
  max_credit_us = 4000;
}

starts_with_one : granted (new 100 1000 4) (100 ∷ 1099 ∷ 1100 ∷ 1100 ∷ []) ≡ 2
unfolding granted new try_take
starts_with_one = refl

granted-new_example : granted (new 100 1000 4) (100 ∷ 1099 ∷ 1100 ∷ []) * 1000 ≤ 1000 + (1100 - 100)
granted-new_example = granted-new 100 1000 4 (100 ∷ 1099 ∷ 1100 ∷ []) (omega arith)
