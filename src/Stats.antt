-- ===== src/Stats.antt =====
-- frontend/lib/dashboardUtils.ts: the totals of the dashboard and the spending by category.
-- Amounts are integer cents. A quotient is kept as a pair of numbers. A category is no name
-- that JavaScript gives to every object, and no integer, which an object would list first.
pub mod Totals
pub mod Categories
use ikarin_bank.Prelude.{
  ℕ, zero, suc, ◌+◌, ◌*◌, Bool, true, false, not, ◌&&◌, ◌||◌, List, [], ◌∷◌, Option, none, some,
  leb, if◌then◌else◌, length, take, filter,
}
use ikarin_bank.Prelude.Int.{ℤ, pos, ◌-ℤ◌}
use ikarin_bank.Text.{Text, codes, text_eq}
use ikarin_bank.Money.{magnitude}
use ikarin_bank.Income.{Transaction, is_text, is_transaction_income, is_transaction_expense}

-- `Math.abs(t.amount || 0)`
abbrev pub size_of : Transaction → ℕ
size_of t = elim t.amount [ none ↦ 0 | some a ↦ magnitude a ]

-- The `reduce` that adds the sizes up.
unfoldable pub total_size : List Transaction → ℕ → ℕ
total_size [] sum = sum
total_size (t ∷ ts) sum = total_size ts (sum + size_of t)

-- `t.category !== "Internal Transfer"`
abbrev pub is_external : Transaction → Bool
is_external t = not (is_text t.category (codes "Internal Transfer"))

abbrev pub is_income : Transaction → Bool
is_income t = is_transaction_income (some t) none

abbrev pub is_expense : Transaction → Bool
is_expense t = is_transaction_expense (some t) none

-- A quotient of two numbers.
pub record Ratio : Type 0 where
  pub numerator : ℕ
  pub denominator : ℕ

-- `DashboardStats`
pub record DashboardStats : Type 0 where
  pub total_income : ℕ
  pub total_expenses : ℕ
  pub net_flow : ℤ
  pub transaction_count : ℕ
  pub pending_count : ℕ
  pub cleared_count : ℕ
  pub average_transaction : Ratio

abbrev pub has_status : Text → Transaction → Bool
has_status s t = is_text t.status s

-- `calculateStats`
unfoldable pub calculate_stats : List Transaction → DashboardStats
calculate_stats transactions =
    let non_internal = filter is_external transactions in
    let total_income = total_size (filter is_income non_internal) 0 in
    let total_expenses = total_size (filter is_expense non_internal) 0 in
    record {
      total_income = total_income;
      total_expenses = total_expenses;
      net_flow = pos total_income -ℤ pos total_expenses;
      transaction_count = length non_internal;
      pending_count = length (filter (has_status (codes "pending")) transactions);
      cleared_count = length (filter (has_status (codes "cleared")) transactions);
      average_transaction = elim transactions [
        | [] ↦ record { numerator = 0; denominator = 1 }
        | t ∷ ts ↦ record { numerator = total_expenses; denominator = suc (length ts) }
      ];
    }

-- `CategorySpending`
pub record CategorySpending : Type 0 where
  pub category : Text
  pub amount : ℕ
  pub percentage : Ratio

-- `t.category || "General Spending"`
abbrev pub category_or : Option Text → Text → Text
category_or none d = d
category_or (some []) d = d
category_or (some (c ∷ s)) d = c ∷ s

unfoldable pub category_of : Transaction → Text
category_of t =
    if is_text t.transaction_type (codes "transfer") || is_text t.category (codes "transfer")
    then codes "Transfers"
    else category_or t.category (codes "General Spending")

abbrev pub Amounts : Type 0
Amounts = List (Text × ℕ)

-- `acc[category] = (acc[category] || 0) + n`; a new category comes last.
unfoldable pub add_amount : Text → ℕ → Amounts → Amounts
add_amount k n [] = (k, n) ∷ []
add_amount k n ((j, v) ∷ m) = if text_eq j k then (j, v + n) ∷ m else (j, v) ∷ add_amount k n m

-- The `reduce` over the transactions.
unfoldable pub by_category : List Transaction → Amounts → Amounts
by_category [] acc = acc
by_category (t ∷ ts) acc = by_category ts (add_amount (category_of t) (size_of t) acc)

unfoldable pub total_amount : Amounts → ℕ
total_amount [] = 0
total_amount ((k, v) ∷ m) = v + total_amount m

-- The stable sort by `(a, b) => b[1] - a[1]`.
unfoldable pub insert_entry : Text × ℕ → Amounts → Amounts
insert_entry e [] = e ∷ []
insert_entry e (f ∷ m) = if leb f.1 e.1 then e ∷ f ∷ m else f ∷ insert_entry e m

unfoldable pub sort_entries : Amounts → Amounts
sort_entries [] = []
sort_entries (e ∷ m) = insert_entry e (sort_entries m)

abbrev pub slice : Option ℕ → Amounts → Amounts
slice none m = m
slice (some limit) m = take limit m

abbrev pub percentage_of : ℕ → ℕ → Ratio
percentage_of amount zero = record { numerator = 0; denominator = 1 }
percentage_of amount (suc total) = record { numerator = amount * 100; denominator = suc total }

unfoldable pub spendings : ℕ → Amounts → List CategorySpending
spendings total [] = []
spendings total ((k, v) ∷ m) =
    record { category = k; amount = v; percentage = percentage_of v total } ∷ spendings total m

abbrev pub is_spending : Transaction → Bool
is_spending t = is_expense t && is_external t

-- `calculateSpendingByCategory`; a limit that is given is a natural number.
unfoldable pub calculate_spending_by_category : List Transaction → Option ℕ → List CategorySpending
calculate_spending_by_category transactions limit =
    let amounts = by_category (filter is_spending transactions) [] in
    spendings (total_amount amounts) (slice limit (sort_entries amounts))
