-- ===== src/Analytics/Conservation.antt =====
-- Where the money of the transactions of a range goes in the figures of the studio.
use ikarin_bank.Prelude.{ℕ, ◌+◌, ◌≡◌, refl, List, [], ◌∷◌, arith, Bool-cases, inl, inr}
use ikarin_bank.Prelude.Int.{ℤ}
use ikarin_bank.Text.{Text, codes}
use ikarin_bank.Merchant.{format_merchant_name}
use ikarin_bank.Stats.{size_of, total_amount, sort_entries, is_income, category_or, Amounts}
use ikarin_bank.Stats.Categories.{total_amount-add_amount, total_amount-sort_entries}
use ikarin_bank.Timeline.{Calendar, TimeRange}
use ikarin_bank.Analytics.{
  Movement, RailMap, Tally, Share, no_tally, raw_merchant, rail_of, add_rail, add_movement, tally,
  shares, filtered_transactions, metrics,
}

-- The sum of the absolute amounts.
unfoldable pub sum_movements : List Movement → ℕ
sum_movements [] = 0
sum_movements (m ∷ ms) = size_of m.facts + sum_movements ms

pub total_rails : RailMap → ℕ
total_rails m = m.fednow + m.wire + m.ach + m.internal

-- The outflow is in each of the three maps in full.
unfoldable pub IsBalanced : Tally → Type 0
IsBalanced t =
    (total_amount t.category_map ≡ t.total_outflow)
    × (total_amount t.merchant_map ≡ t.total_outflow)
    × (total_rails t.rail_map ≡ t.total_outflow)

total_rails-add_rail :
    (rail : Text) (n : ℕ) (m : RailMap) → total_rails (add_rail rail n m) ≡ total_rails m + n
unfolding total_rails add_rail
total_rails-add_rail rail n m = ground arith

add_movement-IsBalanced : (m : Movement) (t : Tally) → IsBalanced t → IsBalanced (add_movement m t)
unfolding IsBalanced add_movement
add_movement-IsBalanced m t (c, g, r) = elim (Bool-cases (is_income m.facts)) [
  | inl e ↦ rw e (c, g, r)
  | inr e ↦
      let n = size_of m.facts in
      rw e (
        omega (
          arith,
          total_amount-add_amount (category_or m.facts.category (codes "General Spending")) n
              t.category_map,
        ),
        omega (
          arith,
          total_amount-add_amount (format_merchant_name (raw_merchant m.facts)) n t.merchant_map,
        ),
        omega (arith, total_rails-add_rail (rail_of m) n t.rail_map),
      )
]

add_movement-sum :
    (m : Movement) (t : Tally)
    → (add_movement m t).total_inflow + (add_movement m t).total_outflow
      ≡ t.total_inflow + t.total_outflow + size_of m.facts
unfolding add_movement
add_movement-sum m t = elim (Bool-cases (is_income m.facts)) [
  | inl e ↦ rw e (omega arith)
  | inr e ↦ rw e (omega arith)
]

pub tally-IsBalanced : (ms : List Movement) (t : Tally) → IsBalanced t → IsBalanced (tally ms t)
unfolding tally
tally-IsBalanced [] t h = h
tally-IsBalanced (m ∷ ms) t h =
    tally-IsBalanced ms (add_movement m t) (add_movement-IsBalanced m t h)

tally-sum :
    (ms : List Movement) (t : Tally)
    → (tally ms t).total_inflow + (tally ms t).total_outflow
      ≡ t.total_inflow + t.total_outflow + sum_movements ms
unfolding tally sum_movements
tally-sum [] t = omega arith
tally-sum (m ∷ ms) t = omega (arith, tally-sum ms (add_movement m t), add_movement-sum m t)

unfoldable pub sum_shares : List Share → ℕ
sum_shares [] = 0
sum_shares (s ∷ ss) = s.amount + sum_shares ss

pub sum_shares-shares : (total : ℕ) (m : Amounts) → sum_shares (shares total m) ≡ total_amount m
unfolding sum_shares shares total_amount
sum_shares-shares total [] = refl
sum_shares-shares total ((k, v) ∷ m) = omega (arith, sum_shares-shares total m)

pub no_tally-IsBalanced : IsBalanced no_tally
unfolding IsBalanced total_amount total_rails
no_tally-IsBalanced = (refl, refl, refl)

-- Inflow and outflow add up to the absolute amounts of the transactions of the range, and the
-- outflow is spread in full over the categories that are listed, and over the four rails.
pub metrics-IsBalanced :
    (host : Calendar) (now : ℤ) (transactions : List Movement) (range : TimeRange)
    → let m = metrics host now transactions range in
      (m.total_inflow + m.total_outflow
        ≡ sum_movements (filtered_transactions host now transactions range))
      × (sum_shares m.top_categories ≡ m.total_outflow)
      × (total_rails m.rail_map ≡ m.total_outflow)
unfolding metrics IsBalanced
metrics-IsBalanced host now transactions range =
    let filtered = filtered_transactions host now transactions range in
    let t = tally filtered no_tally in
    let (categories, _, rails) = tally-IsBalanced filtered no_tally no_tally-IsBalanced in
    (
      omega (arith, tally-sum filtered no_tally),
      omega (
        arith,
        sum_shares-shares t.total_outflow (sort_entries t.category_map),
        total_amount-sort_entries t.category_map,
        categories,
      ),
      rails,
    )
