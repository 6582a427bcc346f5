-- ===== src/Analytics.antt =====
-- frontend/components/neobank/AnalyticsStudio.tsx: the figures that the studio computes from
-- the transactions of a time range. Amounts are integer cents; a share is rounded from the
-- exact quotient. Keys of the maps are no names that JavaScript gives to every object, and no
-- integers.
pub mod Conservation
pub mod Shares
use ikarin_bank.Prelude.{
  ℕ, zero, suc, ◌+◌, ◌-◌, ◌*◌, ◌/◌, Bool, true, false, ◌&&◌, List, [], ◌∷◌, Option, none, some, ltb,
  if◌then◌else◌, take, filter, map,
}
use ikarin_bank.Prelude.Int.{ℤ, pos, ◌-ℤ◌}
use ikarin_bank.Text.{Text, codes, includes, to_lower_case}
use ikarin_bank.Income.{Transaction}
use ikarin_bank.Merchant.{format_merchant_name}
use ikarin_bank.Transfer.{text_or}
use ikarin_bank.Stats.{Amounts, add_amount, sort_entries, size_of, is_income, category_or}
use ikarin_bank.Timeline.{
  Event, Calendar, TimeRange, ChartDataPoint, get_time_range_hours, is_after,
  generate_chart_buckets,
}

-- A transaction with its dates and the type of its event.
pub record Movement : Type 0 where
  pub facts : Transaction
  pub created_at : Option Text
  pub event_time : Option Text
  pub event_type : Option Text

abbrev pub event_of : Movement → Event
event_of m = record {
  amount = m.facts.amount;
  created_at = m.created_at;
  event_time = m.event_time;
}

-- `railMap`
pub record RailMap : Type 0 where
  pub fednow : ℕ
  pub wire : ℕ
  pub ach : ℕ
  pub internal : ℕ

-- What the loop adds up.
pub record Tally : Type 0 where
  pub total_inflow : ℕ
  pub total_outflow : ℕ
  pub category_map : Amounts
  pub merchant_map : Amounts
  pub rail_map : RailMap

abbrev pub no_tally : Tally
no_tally = record {
  total_inflow = 0;
  total_outflow = 0;
  category_map = [];
  merchant_map = [];
  rail_map = record { fednow = 0; wire = 0; ach = 0; internal = 0 };
}

-- `tx.merchant || tx.counterparty || tx.recipient_email || 'Merchant'`
abbrev pub raw_merchant : Transaction → Text
raw_merchant t =
    text_or t.merchant (text_or t.counterparty (text_or t.recipient_email (codes "Merchant")))

abbrev pub rail_of : Movement → Text
rail_of m =
    to_lower_case (text_or m.facts.transaction_type (text_or m.event_type (codes "internal")))

unfoldable pub add_rail : Text → ℕ → RailMap → RailMap
add_rail rail amt m =
    if includes rail (codes "now")
    then record m { fednow = m.fednow + amt }
    else if includes rail (codes "wire")
    then record m { wire = m.wire + amt }
    else if includes rail (codes "ach")
    then record m { ach = m.ach + amt }
    else record m { internal = m.internal + amt }

-- The body of the loop.
unfoldable pub add_movement : Movement → Tally → Tally
add_movement m acc =
    let amt = size_of m.facts in
    if is_income m.facts then record acc { total_inflow = acc.total_inflow + amt } else record acc {
      total_outflow = acc.total_outflow + amt;
      category_map =
          add_amount (category_or m.facts.category (codes "General Spending")) amt acc.category_map;
      merchant_map = add_amount (format_merchant_name (raw_merchant m.facts)) amt acc.merchant_map;
      rail_map = add_rail (rail_of m) amt acc.rail_map;
    }

-- The loop.
unfoldable pub tally : List Movement → Tally → Tally
tally [] acc = acc
tally (m ∷ ms) acc = tally ms (add_movement m acc)

-- `Math.round((n / total) * 100)`, a half rounded up.
abbrev pub percent_of : ℕ → ℕ → ℕ
percent_of n zero = 0
percent_of n (suc total) = (200 * n + suc total) / (2 * suc total)

-- An entry of `topCategories` and `topMerchants`.
pub record Share : Type 0 where
  pub name : Text
  pub amount : ℕ
  pub percent : ℕ

unfoldable pub shares : ℕ → Amounts → List Share
shares total [] = []
shares total ((k, v) ∷ m) =
    record { name = k; amount = v; percent = percent_of v total } ∷ shares total m

-- `totalInflow > 0 ? Math.max(0, Math.round((netFlow / totalInflow) * 100)) : 0`
unfoldable pub savings_rate_of : ℕ → ℕ → ℕ
savings_rate_of total_inflow total_outflow =
    if ltb total_outflow total_inflow
    then percent_of (total_inflow - total_outflow) total_inflow
    else 0

-- `metrics`
pub record Metrics : Type 0 where
  pub total_inflow : ℕ
  pub total_outflow : ℕ
  pub net_flow : ℤ
  pub savings_rate : ℕ
  pub top_categories : List Share
  pub top_merchants : List Share
  pub rail_map : RailMap
  pub chart_data : List ChartDataPoint

-- The clock stands at `now` while the studio computes.
module _ (host : Calendar) (now : ℤ) where
  -- `filteredTransactions`: `filterTransactionsByTimeRange` on these transactions.
  unfoldable pub filtered_transactions : List Movement → TimeRange → List Movement
  filtered_transactions transactions range =
      filter
        (λ m. is_after host (now -ℤ pos (get_time_range_hours range * 3600 * 1000)) (event_of m))
        transactions

  unfoldable pub metrics : List Movement → TimeRange → Metrics
  metrics transactions range =
      let filtered = filtered_transactions transactions range in
      let t = tally filtered no_tally in
      record {
        total_inflow = t.total_inflow;
        total_outflow = t.total_outflow;
        net_flow = pos t.total_inflow -ℤ pos t.total_outflow;
        savings_rate = savings_rate_of t.total_inflow t.total_outflow;
        top_categories = shares t.total_outflow (sort_entries t.category_map);
        top_merchants = take 5 (shares t.total_outflow (sort_entries t.merchant_map));
        rail_map = t.rail_map;
        chart_data = generate_chart_buckets host (map event_of filtered) range now;
      }
