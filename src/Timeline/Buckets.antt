-- ===== src/Timeline/Buckets.antt =====
-- The points of a chart, and the transactions they count.
use ikarin_bank.Prelude.{
  ℕ, zero, suc, ◌+◌, ◌*◌, ◌≡◌, refl, sym, true, false, not, List, [], ◌∷◌, arith, filter, length,
  ap, ◌∙◌,
}
use ikarin_bank.Prelude.Int.{ℤ, pos, ◌-ℤ◌, ◌+ℤ◌, ◌≤ℤ◌, int_laws}
use ikarin_bank.Timeline.{
  Event, Calendar, day, month, quarter, is_between, ChartDataPoint, points, interval_point,
  hour_point, two_day_point, week_point, generate_chart_buckets, data_point,
}

abbrev pub sum_counts : List ChartDataPoint → ℕ
sum_counts [] = 0
sum_counts (p ∷ ps) = p.count + sum_counts ps

-- An interval is split by any time in it.
is_between_split :
    (host : Calendar) (a b c : ℤ) (e : Event)
    → a ≤ℤ b
    → b ≤ℤ c
    → (is_between host a c e ≡ true → (is_between host a b e ≡ not (is_between host b c e)))
      × (is_between host a c e ≡ false
          → (is_between host a b e ≡ false) × (is_between host b c e ≡ false))
unfolding is_between
is_between_split host a b c e h k = ground arith

count_split :
    (host : Calendar) (a b c : ℤ) (es : List Event)
    → a ≤ℤ b
    → b ≤ℤ c
    → length (filter (is_between host a c) es)
      ≡ length (filter (is_between host a b) es) + length (filter (is_between host b c) es)
unfolding filter
count_split host a b c [] h k = refl
count_split host a b c (e ∷ es) h k =
    let rest = count_split host a b c es h k in
    let split = is_between_split host a b c e h k in grind arith

count_empty :
    (host : Calendar) (a b : ℤ) (es : List Event)
    → a ≡ b
    → length (filter (is_between host a b) es) ≡ 0
count_empty host a b es e =
    rw e (omega (arith, count_split host b b b es (omega arith) (omega arith)))

-- The count around a time.
around : Calendar → ℕ → List Event → ℤ → ℕ
around host half es d = length (filter (is_between host (d -ℤ pos half) (d +ℤ pos half)) es)

interval_start :
    (ref : ℤ) (half n : ℕ)
    → ref -ℤ pos (n * (half + half)) -ℤ pos half ≡ ref +ℤ pos half -ℤ pos (suc n * (half + half))
interval_start ref half n = omega int_laws

interval_end :
    (ref : ℤ) (half n : ℕ)
    → ref -ℤ pos (n * (half + half)) +ℤ pos half ≡ ref +ℤ pos half -ℤ pos (n * (half + half))
interval_end ref half n = omega int_laws

-- Intervals of one width that follow each other.
count_intervals :
    (host : Calendar) (point : ℕ → ChartDataPoint) (ref : ℤ) (half : ℕ) (es : List Event)
    → ((i : ℕ)
        → (point i).count
          ≡ length (
              filter
                (is_between host
                  (ref -ℤ pos (i * (half + half)) -ℤ pos half)
                  (ref -ℤ pos (i * (half + half)) +ℤ pos half))
                es))
    → (n : ℕ)
    → sum_counts (points point n)
      ≡ length (
          filter
            (is_between host (ref +ℤ pos half -ℤ pos (n * (half + half))) (ref +ℤ pos half))
            es)
unfolding points
count_intervals host point ref half es h zero = sym (
    count_empty host (ref +ℤ pos half -ℤ pos (0 * (half + half))) (ref +ℤ pos half) es
      (omega int_laws))
count_intervals host point ref half es h (suc n) =
    let rest = count_intervals host point ref half es h n in
    rw (h n) (
      rw (interval_start ref half n) (
        rw (interval_end ref half n) (
          omega (
            arith,
            rest,
            count_split host (ref +ℤ pos half -ℤ pos (suc n * (half + half)))
                (ref +ℤ pos half -ℤ pos (n * (half + half))) (ref +ℤ pos half) es (omega int_laws)
                (omega int_laws),
          ))))

-- The points of the last day count every transaction from 23 hours and a half ago to half an hour ahead
-- once, and no other.
pub generate_chart_buckets_day :
    (host : Calendar) (ts : List Event) (now : ℤ)
    → sum_counts (generate_chart_buckets host ts day now)
      ≡ length
          (filter (is_between host (now +ℤ pos 1800000 -ℤ pos 86400000) (now +ℤ pos 1800000)) ts)
unfolding generate_chart_buckets hour_point interval_point data_point around
generate_chart_buckets_day host ts now =
    count_intervals host (hour_point host ts now) now 1800000 ts
      (λ i. ap (around host 1800000 ts) (ap (λ n. now -ℤ pos n) (omega arith))) 24

-- Where going back by days subtracts whole days (no change of clocks), the points of a month
-- count every transaction from 29 days ago to a day ahead once, and those of a quarter every
-- one from 80 days and a half ago to three days and a half ahead, and no other.
generate_chart_buckets_days :
    (host : Calendar) (ts : List Event) (now : ℤ)
    → ((n : ℕ) → host.days_before now n ≡ now -ℤ pos (n * 86400000))
    → (sum_counts (generate_chart_buckets host ts month now)
        ≡ length (
            filter
              (is_between host (now +ℤ pos 86400000 -ℤ pos 2592000000) (now +ℤ pos 86400000))
              ts))
      × (sum_counts (generate_chart_buckets host ts quarter now)
          ≡ length (
              filter
                (is_between host (now +ℤ pos 302400000 -ℤ pos 7257600000) (now +ℤ pos 302400000))
                ts))
unfolding generate_chart_buckets two_day_point week_point interval_point data_point around
generate_chart_buckets_days host ts now h = (
  count_intervals host (two_day_point host ts now) now 86400000 ts
      (λ i. ap (around host 86400000 ts) (h (i * 2) ∙ ap (λ n. now -ℤ pos n) (omega arith))) 15,
  count_intervals host (week_point host ts now) now 302400000 ts
      (λ i. ap (around host 302400000 ts) (h (i * 7) ∙ ap (λ n. now -ℤ pos n) (omega arith))) 12,
)
