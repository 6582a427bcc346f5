-- ===== src/Stats/Categories.antt =====
-- The spending by category: what the map of amounts holds, and its order.
use ikarin_bank.Prelude.{
  ℕ, zero, suc, ◌+◌, ◌≤◌, ◌≡◌, refl, List, filter, [], ◌∷◌, Option, none, some, arith, Bool-cases,
  inl, inr, leb, leb→le, sym,
}
use ikarin_bank.Text.{Text}
use ikarin_bank.Income.{Transaction}
use ikarin_bank.Stats.{
  size_of, total_size, is_external, is_expense, is_spending, calculate_stats, CategorySpending,
  Amounts, add_amount, by_category, total_amount, insert_entry, sort_entries, slice, spendings,
  calculate_spending_by_category, category_of,
}
use ikarin_bank.Stats.Totals.{sum_sizes, total_size-sum_sizes}

pub total_amount-add_amount :
    (k : Text) (n : ℕ) (m : Amounts) → total_amount (add_amount k n m) ≡ total_amount m + n
unfolding total_amount add_amount
total_amount-add_amount k n [] = omega arith
total_amount-add_amount k n ((j, v) ∷ m) = let rest = total_amount-add_amount k n m in grind arith

total_amount-by_category :
    (ts : List Transaction) (m : Amounts)
    → total_amount (by_category ts m) ≡ total_amount m + sum_sizes ts
unfolding by_category
total_amount-by_category [] m = omega arith
total_amount-by_category (t ∷ ts) m = omega (
  arith,
  total_amount-by_category ts (add_amount (category_of t) (size_of t) m),
  total_amount-add_amount (category_of t) (size_of t) m,
)

total_amount-insert_entry :
    (e : Text × ℕ) (m : Amounts) → total_amount (insert_entry e m) ≡ e.1 + total_amount m
unfolding total_amount insert_entry
total_amount-insert_entry e [] = omega arith
total_amount-insert_entry e (f ∷ m) = let rest = total_amount-insert_entry e m in grind arith

pub total_amount-sort_entries : (m : Amounts) → total_amount (sort_entries m) ≡ total_amount m
unfolding sort_entries total_amount
total_amount-sort_entries [] = refl
total_amount-sort_entries (e ∷ m) =
    omega (arith, total_amount-sort_entries m, total_amount-insert_entry e (sort_entries m))

is_spending-filter :
    (ts : List Transaction) → filter is_spending ts ≡ filter is_expense (filter is_external ts)
unfolding filter
is_spending-filter [] = refl
is_spending-filter (t ∷ ts) = let rest = is_spending-filter ts in grind arith

total_spending :
    (ts : List Transaction)
    → total_amount (by_category (filter is_spending ts) [])
      ≡ total_size (filter is_expense (filter is_external ts)) 0
unfolding total_amount
total_spending ts = rw (sym (is_spending-filter ts)) (
    omega (
      arith,
      total_amount-by_category (filter is_spending ts) [],
      total_size-sum_sizes (filter is_spending ts) 0,
    ))

-- Each amount is at most the one before it.
pub IsDescending : ℕ → List CategorySpending → Type 0
IsDescending n [] = Unit
IsDescending n (c ∷ cs) = (c.amount ≤ n) × IsDescending c.amount cs

abbrev pub sum_amounts : List CategorySpending → ℕ
sum_amounts [] = 0
sum_amounts (c ∷ cs) = c.amount + sum_amounts cs

-- The same on the entries that are sorted.
unfoldable pub AreSorted : ℕ → Amounts → Type 0
AreSorted n [] = Unit
AreSorted n ((k, v) ∷ m) = (v ≤ n) × AreSorted v m

pub AreSorted-mono : (m : Amounts) {a b : ℕ} → a ≤ b → AreSorted a m → AreSorted b m
unfolding AreSorted
AreSorted-mono [] h s = tt
AreSorted-mono ((k, v) ∷ m) h s = (omega (arith, s.0), s.1)

insert_entry-AreSorted :
    (n : ℕ) (e : Text × ℕ) (m : Amounts) → e.1 ≤ n → AreSorted n m → AreSorted n (insert_entry e m)
unfolding insert_entry AreSorted
insert_entry-AreSorted n (k, v) [] h s = (h, tt)
insert_entry-AreSorted n (k, v) ((j, w) ∷ m) h s = elim (Bool-cases (leb w v)) [
  | inl e ↦ rw e (h, (leb→le w v e, s.1))
  | inr e ↦ rw e (s.0, insert_entry-AreSorted w (k, v) m (ground arith) s.1)
]

pub sort_entries-AreSorted : (m : Amounts) → AreSorted (total_amount m) (sort_entries m)
unfolding sort_entries AreSorted total_amount
sort_entries-AreSorted [] = tt
sort_entries-AreSorted ((k, v) ∷ m) =
    insert_entry-AreSorted (v + total_amount m) (k, v) (sort_entries m) (omega arith)
      (AreSorted-mono (sort_entries m) (omega arith) (sort_entries-AreSorted m))

spendings-slice :
    (n total : ℕ) (limit : Option ℕ) (m : Amounts)
    → AreSorted n m
    → IsDescending n (spendings total (slice limit m))
unfolding AreSorted IsDescending spendings
spendings-slice n total none [] s = tt
spendings-slice n total none ((k, v) ∷ m) s = (s.0, spendings-slice v total none m s.1)
spendings-slice n total (some zero) m s = tt
spendings-slice n total (some (suc i)) [] s = tt
spendings-slice n total (some (suc i)) ((k, v) ∷ m) s =
    (s.0, spendings-slice v total (some i) m s.1)

sum_amounts-spendings : (total : ℕ) (m : Amounts) → sum_amounts (spendings total m) ≡ total_amount m
unfolding spendings total_amount
sum_amounts-spendings total [] = refl
sum_amounts-spendings total ((k, v) ∷ m) = omega (arith, sum_amounts-spendings total m)

-- The amounts that calculateSpendingByCategory lists without a limit add up to the total expenses of
-- calculateStats on the same transactions.
pub sum_amounts-calculate_spending_by_category :
    (ts : List Transaction)
    → sum_amounts (calculate_spending_by_category ts none) ≡ (calculate_stats ts).total_expenses
unfolding calculate_spending_by_category calculate_stats
sum_amounts-calculate_spending_by_category ts =
    let m = by_category (filter is_spending ts) [] in
    omega (
      arith,
      sum_amounts-spendings (total_amount m) (sort_entries m),
      total_amount-sort_entries m,
      total_spending ts,
    )

-- With and without a limit the categories come in the order of their amounts, the largest first, and no
-- amount is above the total expenses of calculateStats.
calculate_spending_by_category-IsDescending :
    (ts : List Transaction) (limit : Option ℕ)
    → IsDescending (calculate_stats ts).total_expenses (calculate_spending_by_category ts limit)
unfolding calculate_spending_by_category calculate_stats
calculate_spending_by_category-IsDescending ts limit =
    let m = by_category (filter is_spending ts) [] in
    spendings-slice (total_size (filter is_expense (filter is_external ts)) 0) (total_amount m)
      limit (sort_entries m)
      (AreSorted-mono (sort_entries m) (omega (arith, total_spending ts))
        (sort_entries-AreSorted m))
