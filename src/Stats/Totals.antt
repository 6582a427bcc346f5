-- ===== src/Stats/Totals.antt =====
-- The totals of the dashboard split one sum in two.
use ikarin_bank.Prelude.{
  ℕ, ◌+◌, ◌≤◌, ◌≡◌, refl, Bool, true, false, not, List, filter, [], ◌∷◌, Option, none, some, arith,
  length, Bool-cases, inl, inr,
}
use ikarin_bank.Text.{Text, codes, text_eq}
use ikarin_bank.Text.Laws.{text_eq→eq}
use ikarin_bank.Income.{Transaction, is_text, is_transaction_expense}
use ikarin_bank.Stats.{
  size_of, total_size, is_external, is_income, is_expense, has_status, calculate_stats,
}

-- The sum of the sizes.
abbrev pub sum_sizes : List Transaction → ℕ
sum_sizes [] = 0
sum_sizes (t ∷ ts) = size_of t + sum_sizes ts

pub total_size-sum_sizes : (ts : List Transaction) (n : ℕ) → total_size ts n ≡ n + sum_sizes ts
unfolding total_size
total_size-sum_sizes [] n = omega arith
total_size-sum_sizes (t ∷ ts) n = omega (arith, total_size-sum_sizes ts (n + size_of t))

-- A test and its negation split a sum.
pub sum_sizes-filter :
    (p : Transaction → Bool) (ts : List Transaction)
    → sum_sizes (filter p ts) + sum_sizes (filter (λ t. not (p t)) ts) ≡ sum_sizes ts
unfolding filter
sum_sizes-filter p [] = refl
sum_sizes-filter p (t ∷ ts) = grind (arith, sum_sizes-filter p ts)

-- Tests that never hold together count no transaction twice.
length-filter :
    (p q : Transaction → Bool) (ts : List Transaction)
    → ((t : Transaction) → p t ≡ true → q t ≡ false)
    → length (filter p ts) + length (filter q ts) ≤ length ts
unfolding filter
length-filter p q [] h = omega arith
length-filter p q (t ∷ ts) h =
    let rest = length-filter p q ts h in
    elim (Bool-cases (p t)) [ inl e ↦ let f = h t e in grind arith | inr e ↦ grind arith ]

pending_cleared :
    (o : Option Text) → is_text o (codes "pending") ≡ true → is_text o (codes "cleared") ≡ false
unfolding is_text text_eq
pending_cleared none h = refl
pending_cleared (some s) h = rw (text_eq→eq s (codes "pending") h) refl

-- Incomes and expenses split the transactions that are not internal: their totals add up to the sum of
-- the absolute amounts of these. No transaction is counted as pending and as cleared.
calculate_stats_split :
    (ts : List Transaction)
    → let s = calculate_stats ts in
      (s.total_income + s.total_expenses ≡ sum_sizes (filter is_external ts))
      × (s.pending_count + s.cleared_count ≤ length ts)
unfolding calculate_stats is_transaction_expense
calculate_stats_split ts = (
  omega (
    arith,
    total_size-sum_sizes (filter is_income (filter is_external ts)) 0,
    total_size-sum_sizes (filter is_expense (filter is_external ts)) 0,
    sum_sizes-filter is_income (filter is_external ts),
  ),
  length-filter (has_status (codes "pending")) (has_status (codes "cleared")) ts
      (λ t. pending_cleared t.status),
)
