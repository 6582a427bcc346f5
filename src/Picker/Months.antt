-- ===== src/Picker/Months.antt =====
-- The months of the calendar follow each other.
use ikarin_bank.Prelude.{
  ℕ, zero, suc, ◌+◌, ◌-◌, ◌*◌, ◌/◌, ◌%◌, ◌<◌, ◌≡◌, ap, ◌==◌, if◌then◌else◌, arith, Bool-cases, inl,
  inr,
}
use ikarin_bank.Picker.{
  Date, Picker, leap_day, days_before_month, day_number, first_of, first_of_next, first_of_previous,
  get_days_in_month, get_first_day_of_month, get_day, next_month, prev_month,
}

-- The length of a month, by a table.
abbrev pub month_length : ℕ → ℕ → ℕ
month_length leap m =
    if m == 1
    then 28 + leap
    else if m == 3
    then 30
    else if m == 5
    then 30
    else if m == 8
    then 30
    else if m == 10
    then 30
    else 31

next_month_days :
    (leap m : ℕ)
    → m < 11
    → days_before_month leap (m + 1) ≡ days_before_month leap m + month_length leap m
next_month_days leap zero h = omega arith
next_month_days leap (suc zero) h = omega arith
next_month_days leap (suc (suc zero)) h = omega arith
next_month_days leap (suc (suc (suc zero))) h = omega arith
next_month_days leap (suc (suc (suc (suc zero)))) h = omega arith
next_month_days leap (suc (suc (suc (suc (suc zero))))) h = omega arith
next_month_days leap (suc (suc (suc (suc (suc (suc zero)))))) h = omega arith
next_month_days leap (suc (suc (suc (suc (suc (suc (suc zero))))))) h = omega arith
next_month_days leap (suc (suc (suc (suc (suc (suc (suc (suc zero)))))))) h = omega arith
next_month_days leap (suc (suc (suc (suc (suc (suc (suc (suc (suc zero))))))))) h = omega arith
next_month_days leap (suc (suc (suc (suc (suc (suc (suc (suc (suc (suc zero)))))))))) h =
    omega arith
next_month_days leap (suc (suc (suc (suc (suc (suc (suc (suc (suc (suc (suc m))))))))))) h =
    absurd (omega arith)

-- The days before a year grow by the length of the year.
next_year_days :
    (y : ℕ)
    → 365 * (y + 1) + (y + 1 + 3) / 4 + (y + 1 + 399) / 400 - (y + 1 + 99) / 100
      ≡ 365 * y + (y + 3) / 4 + (y + 399) / 400 - (y + 99) / 100 + (365 + leap_day y)
next_year_days y = ground arith

december : (leap m : ℕ) → m ≡ 11 → days_before_month leap m + month_length leap m ≡ 365 + leap
december leap m e = rw e (omega arith)

pub day_number-next :
    (y m : ℕ)
    → m < 12
    → day_number (first_of_next (first_of y m))
      ≡ day_number (first_of y m) + month_length (leap_day y) m
unfolding day_number first_of_next
day_number-next y m h = elim (Bool-cases (m == 11)) [
  | inl e ↦ rw e (omega (arith, next_year_days y, december (leap_day y) m (ground arith)))
  | inr e ↦ rw e (omega (arith, next_month_days (leap_day y) m (ground arith)))
]

first_of-first_of_next :
    (d : Date) → first_of (first_of_next d).year (first_of_next d).month ≡ first_of_next d
unfolding first_of_next
first_of-first_of_next d = ground arith

-- A month has as many days as the calendar gives it: 28 or 29 in February, 30 in four months
-- and 31 in the others. And the first day of the next month falls on the weekday behind its
-- last day.
pub get_days_in_month_lem :
    (y m : ℕ)
    → m < 12
    → let n = first_of_next (first_of y m) in
      (get_days_in_month y m ≡ month_length (leap_day y) m)
      × (get_first_day_of_month n.year n.month
          ≡ (get_first_day_of_month y m + get_days_in_month y m) % 7)
unfolding get_days_in_month get_first_day_of_month
get_days_in_month_lem y m h = (
  omega (arith, day_number-next y m h),
  rw (ap get_day (first_of-first_of_next (first_of y m))) (omega (arith, day_number-next y m h)),
)

-- Forward and back leads to the first of the month that is shown, and so does back and forward
-- from a year that is not 0.
pub prev_month-next_month :
    (p : Picker)
    → p.current_date.month < 12
    → 0 < p.current_date.year
    → (prev_month (next_month p)
        ≡ record p { current_date = first_of p.current_date.year p.current_date.month })
      × (next_month (prev_month p)
          ≡ record p { current_date = first_of p.current_date.year p.current_date.month })
unfolding prev_month next_month first_of_next first_of_previous
prev_month-next_month p h y = ground arith
