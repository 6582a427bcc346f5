-- ===== src/Tests/Display.antt =====
-- Badges, statuses, merchants, yields and incomes on concrete values.
use ikarin_bank.Prelude.{◌≡◌, refl, true, none, some}
use ikarin_bank.Prelude.Int.{pos, negsuc}
use ikarin_bank.Text.{codes, to_lower_case, to_upper_case, text_eq, includes, split_at, join}
use ikarin_bank.Yield.{calculate_vault_yield, round_div}
use ikarin_bank.Merchant.{format_merchant_name, brand_of, title_case, capitalise}
use ikarin_bank.Income.{
  Transaction, is_transaction_income, decide_by_type, is_text, is_one_of, first_of_texts,
}

vault_yield : (calculate_vault_yield (pos 1000000) 485).monthly_cents ≡ 4042
unfolding calculate_vault_yield round_div
vault_yield = refl

titled : format_merchant_name (codes "blue BOTTLE coffee") ≡ codes "Blue Bottle Coffee"
unfolding format_merchant_name brand_of includes to_upper_case title_case capitalise to_lower_case
    split_at join
titled = refl

abbrev salary : Transaction
salary = record {
  transaction_side = none;
  transaction_type = some (codes "Salary");
  merchant = some (codes "Acme Payroll");
  counterparty = none;
  sender_email = none;
  recipient_email = none;
  category = none;
  amount = some (negsuc 4);
  status = none;
}

salary_income : is_transaction_income (some salary) none ≡ true
unfolding is_transaction_income decide_by_type is_text is_one_of first_of_texts text_eq
    to_lower_case
salary_income = refl
