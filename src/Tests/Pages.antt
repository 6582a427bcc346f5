-- ===== src/Tests/Pages.antt =====
-- The figures of the studio and of the history.
use ikarin_bank.Prelude.{◌+◌, ◌≡◌, ◌≤◌, [], ◌∷◌, none, some, length}
use ikarin_bank.Prelude.Int.{pos, negsuc, ◌-ℤ◌}
use ikarin_bank.Text.{codes}
use ikarin_bank.Timeline.{Calendar, month}
use ikarin_bank.Analytics.{Movement, filtered_transactions, metrics}
use ikarin_bank.Analytics.Conservation.{sum_movements, sum_shares, total_rails, metrics-IsBalanced}
use ikarin_bank.Analytics.Shares.{AreShares, metrics-AreShares}

-- A host whose times are the lengths of the texts.
abbrev host : Calendar
host = record {
  parse = λ s. some (pos (length s));
  to_date_string = λ d. codes "day";
  month_day = λ long d. codes "day";
  get_full_year = λ d. d;
  get_month = λ d. d;
  days_before = λ d n. d -ℤ pos n;
  month_before = λ d n. d -ℤ pos n;
  hour_label = λ d. codes "hour";
  weekday_label = λ d. codes "weekday";
  month_label = λ d. codes "month";
}

abbrev coffee : Movement
coffee = record {
  facts = record {
    transaction_side = some (codes "DEBIT");
    transaction_type = some (codes "expense");
    merchant = some (codes "coffee");
    counterparty = none;
    sender_email = none;
    recipient_email = none;
    category = some (codes "Food");
    amount = some (negsuc 349);
    status = some (codes "cleared");
  };
  created_at = some (codes "now");
  event_time = none;
  event_type = none;
}

metrics-IsBalanced_example :
    let m = metrics host (pos 10) (coffee ∷ []) month in
    (m.total_inflow + m.total_outflow
      ≡ sum_movements (filtered_transactions host (pos 10) (coffee ∷ []) month))
    × (sum_shares m.top_categories ≡ m.total_outflow)
    × (total_rails m.rail_map ≡ m.total_outflow)
metrics-IsBalanced_example = metrics-IsBalanced host (pos 10) (coffee ∷ []) month

metrics-AreShares_example :
    let m = metrics host (pos 10) (coffee ∷ []) month in
    AreShares m.total_outflow m.top_categories
    × AreShares m.total_outflow m.top_merchants
    × (length m.top_merchants ≤ 5)
    × (m.savings_rate ≤ 100)
metrics-AreShares_example = metrics-AreShares host (pos 10) (coffee ∷ []) month
