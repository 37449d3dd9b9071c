-- ===== src/Interchip/RateBudget/Rate.antt =====
-- How many reports a budget of src/interchip/rate_budget.rs lets through.
-- Each time is at least the one before it, and the first at least `t`.
use hidshift.Interchip.RateBudget.{new, FixedIntervalBudget, try_take}
use hidshift.Prelude.{
  Bool, false, min, true, u64_max, List, [], arith, if◌then◌else◌, suc, ℕ, ◌*◌, ◌+◌, ◌-◌, ◌∷◌, ◌≡◌,
  ◌≤◌,
}

abbrev pub Ascending : ℕ → List ℕ → Type 0
Ascending t [] = Unit
Ascending t (x ∷ xs) = (t ≤ x) × Ascending x xs

-- The time of the last call, `t` if there is none.
abbrev pub last_time : ℕ → List ℕ → ℕ
last_time t [] = t
last_time t (x ∷ xs) = last_time x xs

-- How many of the calls at these times take a report.
unfoldable pub granted : FixedIntervalBudget → List ℕ → ℕ
granted b [] = 0
granted b (now ∷ times) =
    let (taken, b') = try_take b now in
    let rest = granted b' times in if taken then suc rest else rest

try_take_lem :
    (b : FixedIntervalBudget) (now : ℕ)
    → b.last_refill_us ≤ now
    → let (taken, b') = try_take b now in
      (b'.interval_us ≡ b.interval_us)
      × (b'.max_credit_us ≡ b.max_credit_us)
      × (b'.last_refill_us ≡ now)
      × (b'.credit_us ≤ b.max_credit_us)
      × ((if taken then b.interval_us else 0) + b'.credit_us
          ≤ b.credit_us + (now - b.last_refill_us))
      × ((if taken then b.interval_us else 0) + b'.credit_us ≤ b.max_credit_us)
unfolding try_take
try_take_lem b now h = ground arith

try_take_kept :
    (b : FixedIntervalBudget) (now : ℕ)
    → let b' = (try_take b now).1 in
      (b'.interval_us ≡ b.interval_us)
      × (b'.max_credit_us ≡ b.max_credit_us)
      × (b'.last_refill_us ≡ now)
unfolding try_take
try_take_kept b now = ground arith

last_time-le : (t : ℕ) (times : List ℕ) → Ascending t times → t ≤ last_time t times
last_time-le t [] h = omega arith
last_time-le t (x ∷ xs) h = omega (arith, h.0, last_time-le x xs h.1)

count_step :
    (taken : Bool) (n i c c' e e' : ℕ)
    → n * i ≤ c' + e'
    → (if taken then i else 0) + c' ≤ c + e
    → (if taken then suc n else n) * i ≤ c + (e + e')
count_step true n i c c' e e' h k = omega arith
count_step false n i c c' e e' h k = omega arith

-- The credit in hand and the time that passes bound the reports.
granted_bound :
    (b : FixedIntervalBudget) (times : List ℕ)
    → Ascending b.last_refill_us times
    → granted b times * b.interval_us
      ≤ b.credit_us + (last_time b.last_refill_us times - b.last_refill_us)
unfolding granted
granted_bound b [] h = omega arith
granted_bound b (now ∷ times) h =
    let (taken, b') = try_take b now in
    let (interval, most, time, below, paid, capped) = try_take_lem b now h.0 in
    let later = rw (interval, time) at (granted_bound b' times (rw time h.1)) in
    let step =
      count_step taken (granted b' times) b.interval_us b.credit_us b'.credit_us
        (now - b.last_refill_us) (last_time now times - now) later paid in
    omega (arith, step, last_time-le now times h.1)

burst_bound :
    (b : FixedIntervalBudget) (now : ℕ) (times : List ℕ)
    → Ascending b.last_refill_us (now ∷ times)
    → granted b (now ∷ times) * b.interval_us ≤ b.max_credit_us + (last_time now times - now)
unfolding granted
burst_bound b now times h =
    let (taken, b') = try_take b now in
    let (interval, most, time, below, paid, capped) = try_take_lem b now h.0 in
    let later = rw (interval, time) at (granted_bound b' times (rw time h.1)) in
    let step =
      count_step taken (granted b' times) b.interval_us b.max_credit_us b'.credit_us 0
        (last_time now times - now) later (omega (arith, capped)) in
    omega (arith, step)

-- While the clock does not run backwards, the reports let through since a budget was made take no
-- more than the time that passed and one interval.
pub granted-new :
    (start interval max_burst : ℕ) (times : List ℕ)
    → Ascending start times
    → granted (new start interval max_burst) times * interval
      ≤ interval + (last_time start times - start)
unfolding new
granted-new start interval max_burst times h = granted_bound (new start interval max_burst) times h

-- However long a budget was idle, the reports that it lets through from some call on take no more
-- than the time since that call and the burst.
granted_burst :
    (b : FixedIntervalBudget) (max_burst now : ℕ) (times : List ℕ)
    → b.max_credit_us ≡ min (b.interval_us * max_burst) u64_max
    → Ascending b.last_refill_us (now ∷ times)
    → granted b (now ∷ times) * b.interval_us
      ≤ b.interval_us * max_burst + (last_time now times - now)
granted_burst b max_burst now times e h = omega (arith, burst_bound b now times h)

-- A budget whose interval fits its maximum grants a call that comes an interval after the last one,
-- or later; so waiting is always enough.
try_take_due :
    (b : FixedIntervalBudget) (now : ℕ)
    → b.interval_us ≤ b.max_credit_us
    → b.interval_us ≤ u64_max
    → b.last_refill_us + b.interval_us ≤ now
    → (try_take b now).0 ≡ true
unfolding try_take
try_take_due b now h k l = ground arith

-- A clock that steps back and forth makes credit: after a call at `now`, one at an earlier time
-- `back` and one at `now` again, `now - back` later by the clock alone, lets a report through.
try_take_backward :
    (b : FixedIntervalBudget) (now back : ℕ)
    → b.interval_us ≤ b.max_credit_us
    → b.interval_us ≤ u64_max
    → back + b.interval_us ≤ now
    → (try_take (try_take (try_take b now).1 back).1 now).0 ≡ true
try_take_backward b now back h k l =
    let (interval, most, time) = try_take_kept b now in
    let (interval', most', time') = try_take_kept (try_take b now).1 back in
    try_take_due (try_take (try_take b now).1 back).1 now (omega arith) (omega arith) (omega arith)
