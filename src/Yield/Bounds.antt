-- ===== src/Yield/Bounds.antt =====
-- How far the rounded yields are from the exact ones.
use ikarin_bank.Prelude.{ℕ, ◌+◌, ◌*◌, ◌≤◌, arith}
use ikarin_bank.Prelude.Int.{ℤ, pos, negsuc, pos_part}
use ikarin_bank.Yield.{round_div, calculate_vault_yield}

-- Twelve monthly yields differ from the annual one by six cents at most, and 365 daily ones by 182: the
-- rounding of one period is half a cent at most.
periods_bounds :
    (balance : ℤ) (apy : ℕ)
    → let y = calculate_vault_yield balance apy in
      (12 * y.monthly_cents ≤ y.annual_cents + 6)
      × (y.annual_cents ≤ 12 * y.monthly_cents + 6)
      × (365 * y.daily_cents ≤ y.annual_cents + 182)
      × (y.annual_cents ≤ 365 * y.daily_cents + 182)
unfolding calculate_vault_yield round_div
periods_bounds (negsuc n) apy = omega arith
periods_bounds (pos balance) apy = ground arith

-- The annual yield is the exact one to half a cent: ten thousand times it is within five thousand of
-- the balance times the rate, and no balance that is not positive yields anything.
annual_bounds :
    (balance : ℤ) (apy : ℕ)
    → let y = calculate_vault_yield balance apy in
      (10000 * y.annual_cents ≤ pos_part balance * apy + 5000)
      × (pos_part balance * apy ≤ 10000 * y.annual_cents + 5000)
unfolding calculate_vault_yield round_div
annual_bounds (negsuc n) apy = omega arith
annual_bounds (pos balance) apy = ground arith
