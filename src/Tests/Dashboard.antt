-- ===== src/Tests/Dashboard.antt =====
-- The dashboard, the charts and the groups on concrete transactions.
use ikarin_bank.Prelude.{ℕ, ◌*◌, ◌≡◌, List, [], ◌∷◌, none, some, filter, length}
use ikarin_bank.Prelude.Int.{ℤ, pos, negsuc, ◌+ℤ◌, ◌-ℤ◌}
use ikarin_bank.Text.{codes, text_eq}
use ikarin_bank.Income.{Transaction}
use ikarin_bank.Stats.{calculate_stats, calculate_spending_by_category}
use ikarin_bank.Stats.Categories.{sum_amounts, sum_amounts-calculate_spending_by_category}
use ikarin_bank.Timeline.{
  Event, Calendar, day, is_between, header_of, generate_chart_buckets, group_transactions_by_date,
}
use ikarin_bank.Timeline.Buckets.{sum_counts, generate_chart_buckets_day}
use ikarin_bank.Timeline.Groups.{events_under, count_events, group_transactions_by_date_lem}

-- A host without changes of clocks that reads texts of one unit as hours.
abbrev host : Calendar
host = record {
  parse = λ s. elim s [ [] ↦ none | c ∷ t ↦ some (pos (c * 3600000)) ];
  to_date_string = λ d. elim d [ none ↦ codes "Invalid Date" | some t ↦ codes "Mon" ];
  month_day = λ with_year d. codes "Jan 1";
  get_full_year = λ d. d;
  get_month = λ d. d;
  days_before = λ d n. d -ℤ pos (n * 86400000);
  month_before = λ d n. d;
  hour_label = λ d. codes "1 PM";
  weekday_label = λ d. codes "Mon";
  month_label = λ d. codes "Jan";
}

abbrev now : ℤ
now = pos (100 * 3600000)

abbrev dated : ℕ → Event
dated c = record { amount = some (negsuc 4); created_at = some (c ∷ []); event_time = none }

abbrev undated : Event
undated = record { amount = none; created_at = some []; event_time = none }

abbrev events : List Event
events = dated 99 ∷ undated ∷ dated 50 ∷ []

generate_chart_buckets_day_example :
    sum_counts (generate_chart_buckets host events day now)
    ≡ length
        (filter (is_between host (now +ℤ pos 1800000 -ℤ pos 86400000) (now +ℤ pos 1800000)) events)
generate_chart_buckets_day_example = generate_chart_buckets_day host events now

group_transactions_by_date_lem_example :
    (events_under (codes "Today") (group_transactions_by_date host now events)
      ≡ filter (λ e. text_eq (header_of host now e) (codes "Today")) events)
    × (count_events (group_transactions_by_date host now events) ≡ 3)
group_transactions_by_date_lem_example =
    group_transactions_by_date_lem host now events (codes "Today")

abbrev blank : Transaction
blank = record {
  transaction_side = none;
  transaction_type = none;
  merchant = none;
  counterparty = none;
  sender_email = none;
  recipient_email = none;
  category = none;
  amount = none;
  status = none;
}

abbrev month_of_transactions : List Transaction
month_of_transactions =
    record blank {
      transaction_side = some (codes "CREDIT");
      amount = some (pos 900);
      status = some (codes "pending");
    }
    ∷ record blank {
      transaction_side = some (codes "DEBIT");
      amount = some (negsuc 249);
      category = some (codes "Food");
    }
    ∷ record blank {
      transaction_side = some (codes "DEBIT");
      amount = some (pos 30);
      status = some (codes "cleared");
    }
    ∷ []

sum_amounts-calculate_spending_by_category_example :
    sum_amounts (calculate_spending_by_category month_of_transactions none)
    ≡ (calculate_stats month_of_transactions).total_expenses
sum_amounts-calculate_spending_by_category_example =
    sum_amounts-calculate_spending_by_category month_of_transactions
