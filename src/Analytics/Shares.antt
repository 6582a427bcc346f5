-- ===== src/Analytics/Shares.antt =====
-- The bounds of the shares that the studio lists.
use ikarin_bank.Prelude.{
  ℕ, zero, suc, ◌+◌, ◌-◌, ◌*◌, ◌/◌, ◌≤◌, ◌<◌, ◌≡◌, List, [], ◌∷◌, arith, Bool-cases, inl, inr, ltb,
  length, take, length-take,
}
use native.Mathlib.Nat.{div-lt_iff_lt-mul}
use ikarin_bank.Prelude.Int.{ℤ}
use ikarin_bank.Stats.{Amounts, sort_entries, total_amount}
use ikarin_bank.Stats.Categories.{AreSorted, AreSorted-mono, sort_entries-AreSorted}
use ikarin_bank.Timeline.{Calendar, TimeRange}
use ikarin_bank.Analytics.{
  Movement, Share, no_tally, percent_of, savings_rate_of, tally, shares, filtered_transactions,
  metrics,
}
use ikarin_bank.Analytics.Conservation.{IsBalanced, tally-IsBalanced, no_tally-IsBalanced}

pub percent_of_bound : (n total : ℕ) → n ≤ total → percent_of n total ≤ 100
percent_of_bound n zero h = omega arith
percent_of_bound n (suc total) h =
    let bound : (200 * n + suc total) / (2 * suc total) < 101 =
      (div-lt_iff_lt-mul {k = 2 * suc total} {x = 200 * n + suc total} {y = 101} (omega arith)).1
        (omega arith) in
    omega arith

-- The shares come by their amounts, the largest first, none above `n`, and none above a hundred
-- percent.
pub AreShares : ℕ → List Share → Type 0
AreShares n [] = Unit
AreShares n (s ∷ ss) = (s.amount ≤ n) × (s.percent ≤ 100) × AreShares s.amount ss

shares-AreShares :
    (n total : ℕ) (m : Amounts) → n ≤ total → AreSorted n m → AreShares n (shares total m)
unfolding AreSorted AreShares shares
shares-AreShares n total [] h s = tt
shares-AreShares n total ((k, v) ∷ m) h s = (
  s.0,
  percent_of_bound v total (omega (arith, s.0)),
  shares-AreShares v total m (omega (arith, s.0)) s.1,
)

take-AreShares : (n k : ℕ) (ss : List Share) → AreShares n ss → AreShares n (take k ss)
unfolding AreShares
take-AreShares n zero ss h = tt
take-AreShares n (suc k) [] h = tt
take-AreShares n (suc k) (s ∷ ss) h = (h.0, h.1, take-AreShares s.amount k ss h.2)

savings_rate_of_bound : (inflow outflow : ℕ) → savings_rate_of inflow outflow ≤ 100
unfolding savings_rate_of
savings_rate_of_bound inflow outflow = elim (Bool-cases (ltb outflow inflow)) [
  | inl e ↦ rw e (percent_of_bound (inflow - outflow) inflow (omega arith))
  | inr e ↦ rw e (omega arith)
]

-- The categories and the merchants that are listed come by their amounts, the largest first.
-- None is above the outflow, no percentage is above a hundred, nor is the rate of savings, and
-- at most five merchants are listed.
pub metrics-AreShares :
    (host : Calendar) (now : ℤ) (transactions : List Movement) (range : TimeRange)
    → let m = metrics host now transactions range in
      AreShares m.total_outflow m.top_categories
      × AreShares m.total_outflow m.top_merchants
      × (length m.top_merchants ≤ 5)
      × (m.savings_rate ≤ 100)
unfolding metrics IsBalanced
metrics-AreShares host now transactions range =
    let t = tally (filtered_transactions host now transactions range) no_tally in
    let (categories, merchants, _) =
      tally-IsBalanced (filtered_transactions host now transactions range) no_tally
        no_tally-IsBalanced in
    let total = t.total_outflow in
    let sorted = λ (m : Amounts) (e : total_amount m ≡ total).
      shares-AreShares total total (sort_entries m) (omega arith)
        (AreSorted-mono (sort_entries m) (omega (arith, e)) (sort_entries-AreSorted m)) in
    (
      sorted t.category_map categories,
      take-AreShares total 5 _ (sorted t.merchant_map merchants),
      omega (arith, length-take 5 (shares total (sort_entries t.merchant_map))),
      savings_rate_of_bound t.total_inflow t.total_outflow,
    )
