-- ===== src/Timeline.antt =====
-- frontend/lib/neobank/utils.ts: the time ranges of the charts, the window that a range filters by, the
-- points of a chart, and the transactions under their dates. Times are milliseconds. What the host's
-- `Date` does is a parameter, the record `Calendar`; NaN and an invalid date are `none`.
pub mod Window
pub mod Buckets
pub mod Groups
use ikarin_bank.Prelude.{
  ℕ, zero, suc, ◌+◌, ◌*◌, ◌/◌, Bool, true, false, not, ◌&&◌, List, [], ◌∷◌, ◌++◌, Option, none,
  some, if◌then◌else◌, length, filter,
}
use ikarin_bank.Prelude.Int.{ℤ, pos, ◌+ℤ◌, ◌-ℤ◌, ltb_ℤ}
use ikarin_bank.Text.{Text, codes, text_eq}
use ikarin_bank.Money.{magnitude}

-- What the code takes from a transaction or an event.
pub record Event : Type 0 where
  pub amount : Option ℤ
  pub created_at : Option Text
  pub event_time : Option Text

-- The operations of `Date` that the code calls, in the host's time zone.
pub record Calendar : Type 0 where
  -- `new Date(s).getTime()`
  pub parse : Text → Option ℤ
  pub to_date_string : Option ℤ → Text
  -- `toLocaleDateString` with the month and the day, and with the year where the flag is set.
  pub month_day : Bool → Option ℤ → Text
  pub get_full_year : Option ℤ → Option ℤ
  pub get_month : Option ℤ → Option ℤ
  -- `d.setDate(d.getDate() - n)`
  pub days_before : ℤ → ℕ → ℤ
  -- `new Date(d.getFullYear(), d.getMonth() - n, 1)`
  pub month_before : ℤ → ℕ → ℤ
  pub hour_label : ℤ → Text
  pub weekday_label : ℤ → Text
  pub month_label : ℤ → Text

-- `created_at || event_time`; an empty text is as good as none.
abbrev pub raw_date_or : Option Text → Option Text → Option Text
raw_date_or (some (c ∷ s)) event_time = some (c ∷ s)
raw_date_or _ none = none
raw_date_or _ (some []) = none
raw_date_or _ (some (c ∷ s)) = some (c ∷ s)

abbrev pub raw_date : Event → Option Text
raw_date e = raw_date_or e.created_at e.event_time

-- `s.endsWith('Z')`
unfoldable pub ends_with_z : Text → Bool
ends_with_z [] = false
ends_with_z (c ∷ []) = text_eq (c ∷ []) (codes "Z")
ends_with_z (c ∷ d ∷ s) = ends_with_z (d ∷ s)

-- `rawDate.endsWith('Z') ? rawDate : rawDate + 'Z'`
unfoldable pub zulu : Text → Text
zulu s = if ends_with_z s then s else s ++ codes "Z"

pub data TimeRange : Type 0 where
  day : TimeRange
  week : TimeRange
  month : TimeRange
  quarter : TimeRange
  year : TimeRange

-- `getTimeRangeHours`
abbrev pub get_time_range_hours : TimeRange → ℕ
get_time_range_hours day = 24
get_time_range_hours week = 168
get_time_range_hours month = 720
get_time_range_hours quarter = 2160
get_time_range_hours year = 8760

-- `===` of numbers.
unfoldable pub same_number : Option ℤ → Option ℤ → Bool
same_number none b = false
same_number (some a) none = false
same_number (some a) (some b) = not (ltb_ℤ a b) && not (ltb_ℤ b a)

-- `ChartDataPoint`
pub record ChartDataPoint : Type 0 where
  pub date : Text
  pub amount : ℕ
  pub count : ℕ

-- `Math.abs(tx.amount || 0)`
abbrev pub size_of : Event → ℕ
size_of e = elim e.amount [ none ↦ 0 | some a ↦ magnitude a ]

unfoldable pub total_cents : List Event → ℕ → ℕ
total_cents [] sum = sum
total_cents (e ∷ es) sum = total_cents es (sum + size_of e)

-- The point of the transactions that match; `Math.round` rounds a half up.
unfoldable pub data_point : Text → List Event → ChartDataPoint
data_point label matching = record {
  date = label;
  amount = (total_cents matching 0 + 50) / 100;
  count = length matching;
}

-- `for (let i = n - 1; i >= 0; i--) points.push(point(i))`
unfoldable pub points : (ℕ → ChartDataPoint) → ℕ → List ChartDataPoint
points point zero = []
points point (suc i) = point i ∷ points point i

module _ (host : Calendar) where
  -- The test of `filterTransactionsByTimeRange`.
  unfoldable pub is_after : ℤ → Event → Bool
  is_after cutoff_ms e = elim (raw_date e) [
    | none ↦ true
    | some s ↦ elim (host.parse (zulu s)) [ none ↦ true | some t ↦ not (ltb_ℤ t cutoff_ms) ]
  ]

  -- `filterTransactionsByTimeRange`
  unfoldable pub filter_transactions_by_time_range : List Event → TimeRange → ℤ → List Event
  filter_transactions_by_time_range transactions range ref_date =
      filter (is_after (ref_date -ℤ pos (get_time_range_hours range * 3600 * 1000))) transactions

  -- The tests of `generateChartBuckets`: a time in an interval, a day, a month.
  unfoldable pub is_between : ℤ → ℤ → Event → Bool
  is_between start_ms end_ms e = elim (raw_date e) [
    | none ↦ false
    | some s ↦ elim (host.parse (zulu s)) [
      | none ↦ false
      | some t ↦ not (ltb_ℤ t start_ms) && ltb_ℤ t end_ms
    ]
  ]

  unfoldable pub is_on_day : Text → Event → Bool
  is_on_day date_str e = elim (raw_date e) [
    | none ↦ false
    | some s ↦ text_eq (host.to_date_string (host.parse (zulu s))) date_str
  ]

  unfoldable pub is_in_month : Option ℤ → Option ℤ → Event → Bool
  is_in_month target_month target_year e = elim (raw_date e) [
    | none ↦ false
    | some s ↦
        same_number (host.get_month (host.parse (zulu s))) target_month
        && same_number (host.get_full_year (host.parse (zulu s))) target_year
  ]

  -- The point of the time within `half` milliseconds of `middle`.
  unfoldable pub interval_point : Text → ℤ → ℕ → List Event → ChartDataPoint
  interval_point label middle half transactions =
      data_point label (filter (is_between (middle -ℤ pos half) (middle +ℤ pos half)) transactions)

  unfoldable pub hour_point : List Event → ℤ → ℕ → ChartDataPoint
  hour_point transactions ref_date i =
      let bucket_time = ref_date -ℤ pos (i * 3600 * 1000) in
      interval_point (host.hour_label bucket_time) bucket_time (1800 * 1000) transactions

  unfoldable pub day_point : List Event → ℤ → ℕ → ChartDataPoint
  day_point transactions ref_date i =
      let d = host.days_before ref_date i in
      data_point (host.weekday_label d)
        (filter (is_on_day (host.to_date_string (some d))) transactions)

  unfoldable pub two_day_point : List Event → ℤ → ℕ → ChartDataPoint
  two_day_point transactions ref_date i =
      let d = host.days_before ref_date (i * 2) in
      interval_point (host.month_day false (some d)) d (24 * 3600 * 1000) transactions

  -- Half a week is 3.5 * 24 hours.
  unfoldable pub week_point : List Event → ℤ → ℕ → ChartDataPoint
  week_point transactions ref_date i =
      let d = host.days_before ref_date (i * 7) in
      interval_point (host.month_day false (some d)) d (84 * 3600 * 1000) transactions

  unfoldable pub month_point : List Event → ℤ → ℕ → ChartDataPoint
  month_point transactions ref_date i =
      let d = host.month_before ref_date i in
      data_point (host.month_label d)
        (filter (is_in_month (host.get_month (some d)) (host.get_full_year (some d))) transactions)

  -- `generateChartBuckets`
  unfoldable pub generate_chart_buckets : List Event → TimeRange → ℤ → List ChartDataPoint
  generate_chart_buckets transactions range ref_date = elim range [
    | day ↦ points (hour_point transactions ref_date) 24
    | week ↦ points (day_point transactions ref_date) 7
    | month ↦ points (two_day_point transactions ref_date) 15
    | quarter ↦ points (week_point transactions ref_date) 12
    | year ↦ points (month_point transactions ref_date) 12
  ]

  -- The header of an event, `now` being the time of the call.
  unfoldable pub header_of : ℤ → Event → Text
  header_of now e = elim (raw_date e) [
    | none ↦ codes "Earlier"
    | some s ↦
        let tx_date = host.parse (zulu s) in
        let tx_date_str = host.to_date_string tx_date in
        if text_eq tx_date_str (host.to_date_string (some now))
        then codes "Today"
        else if text_eq tx_date_str (host.to_date_string (some (host.days_before now 1)))
        then codes "Yesterday"
        else host.month_day
            (not (same_number (host.get_full_year tx_date) (host.get_full_year (some now)))) tx_date
  ]

-- `groups`, in the order of its keys.
abbrev pub Groups : Type 0
Groups = List (Text × List Event)

-- `groups[header] = groups[header] || []; groups[header].push(event)`
unfoldable pub push_event : Text → Event → Groups → Groups
push_event header e [] = (header, e ∷ []) ∷ []
push_event header e ((k, es) ∷ groups) =
    let rest = push_event header e groups in
    if text_eq k header then (k, es ++ e ∷ []) ∷ groups else (k, es) ∷ rest

-- `groups[header]`
unfoldable pub lookup : Text → Groups → Option (List Event)
lookup header [] = none
lookup header ((k, es) ∷ groups) =
    let rest = lookup header groups in if text_eq k header then some es else rest

module _ (host : Calendar) where
  unfoldable pub group_events : ℤ → List Event → Groups → Groups
  group_events now [] groups = groups
  group_events now (e ∷ es) groups =
      group_events now es (push_event (header_of host now e) e groups)

  -- `groupTransactionsByDate`
  unfoldable pub group_transactions_by_date : ℤ → List Event → Groups
  group_transactions_by_date now events = group_events now events []
