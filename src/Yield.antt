-- ===== src/Yield.antt =====
-- frontend/lib/neobank/utils.ts: the yield of a savings vault. The rate is in hundredths of a percent
-- (4.85 is 485), balances are integer cents, and the divisions are exact: the rounding of the source's
-- double-precision products is not modelled.
pub mod Bounds
use ikarin_bank.Prelude.{
  ℕ, zero, suc, ◌+◌, ◌*◌, ◌/◌, ◌%◌, Bool, true, false, ◌||◌, ◌∷◌, ◌++◌, ◌==◌, if◌then◌else◌,
}
use ikarin_bank.Prelude.Int.{ℤ, pos, negsuc, pos_part}
use ikarin_bank.Text.{Text, codes, pad_start}
use ikarin_bank.Text.Decimal.{print}

-- `Math.round(a / b)` for natural numbers: halves go up.
unfoldable pub round_div : ℕ → ℕ → ℕ
round_div a b = (2 * a + b) / (2 * b)

-- `VaultYieldResult`
pub record VaultYieldResult : Type 0 where
  pub annual_cents : ℕ
  pub monthly_cents : ℕ
  pub daily_cents : ℕ
  pub formatted_apy : Text

-- `apyPercent.toFixed(2)` and the unit.
unfoldable pub format_apy : ℕ → Text
format_apy apy = print (apy / 100) ++ (46 ∷ (pad_start 2 48 (print (apy % 100)) ++ codes "% APY"))

-- `calculateVaultYield` at a rate that is not negative.
unfoldable pub calculate_vault_yield : ℤ → ℕ → VaultYieldResult
calculate_vault_yield (negsuc n) apy = record {
  annual_cents = 0;
  monthly_cents = 0;
  daily_cents = 0;
  formatted_apy = format_apy apy;
}
calculate_vault_yield (pos balance) apy =
    let annual = round_div (balance * apy) 10000 in
    if balance == 0 || apy == 0
    then record {
      annual_cents = 0;
      monthly_cents = 0;
      daily_cents = 0;
      formatted_apy = format_apy apy;
    }
    else record {
      annual_cents = annual;
      monthly_cents = round_div annual 12;
      daily_cents = round_div annual 365;
      formatted_apy = format_apy apy;
    }
