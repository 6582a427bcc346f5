-- ===== src/Picker.antt =====
-- frontend/components/ui/DatePicker.tsx: the state of the date picker, its handlers and the
-- cells of its grid. A date is its year, its month from 0 and its day, as the host's `Date` has
-- them in local time, for years from 100 on (the constructor of `Date` reads smaller ones as of
-- the twentieth century).
pub mod Months
pub mod Grid
use ikarin_bank.Prelude.{
  ℕ, zero, suc, ◌+◌, ◌-◌, ◌*◌, ◌/◌, ◌%◌, Bool, true, false, not, ◌&&◌, ◌||◌, List, [], ◌∷◌, ◌++◌,
  ◌==◌, ltb, if◌then◌else◌, length,
}
use ikarin_bank.Text.{Text, text_eq, pad_start}
use ikarin_bank.Text.Decimal.{print}

pub record Date : Type 0 where
  pub year : ℕ
  pub month : ℕ
  pub day : ℕ

-- The Gregorian calendar of `Date`.
abbrev pub is_leap : ℕ → Bool
is_leap y = (y % 4 == 0 && not (y % 100 == 0)) || y % 400 == 0

abbrev pub leap_day : ℕ → ℕ
leap_day y = if is_leap y then 1 else 0

-- The days of the year before a month.
abbrev pub days_before_month : ℕ → ℕ → ℕ
days_before_month leap zero = 0
days_before_month leap (suc zero) = 31
days_before_month leap (suc (suc zero)) = 59 + leap
days_before_month leap (suc (suc (suc zero))) = 90 + leap
days_before_month leap (suc (suc (suc (suc zero)))) = 120 + leap
days_before_month leap (suc (suc (suc (suc (suc zero))))) = 151 + leap
days_before_month leap (suc (suc (suc (suc (suc (suc zero)))))) = 181 + leap
days_before_month leap (suc (suc (suc (suc (suc (suc (suc zero))))))) = 212 + leap
days_before_month leap (suc (suc (suc (suc (suc (suc (suc (suc zero)))))))) = 243 + leap
days_before_month leap (suc (suc (suc (suc (suc (suc (suc (suc (suc zero))))))))) = 273 + leap
days_before_month leap (suc (suc (suc (suc (suc (suc (suc (suc (suc (suc zero)))))))))) = 304 + leap
days_before_month leap (suc (suc (suc (suc (suc (suc (suc (suc (suc (suc (suc m))))))))))) =
    334 + leap

-- The days from the first of January of the year 0, a Saturday.
unfoldable pub day_number : Date → ℕ
day_number d =
    365 * d.year
    + (d.year + 3) / 4
    + (d.year + 399) / 400
    - (d.year + 99) / 100
    + days_before_month (leap_day d.year) d.month
    + (d.day - 1)

-- `getDay()`, 0 being Sunday.
abbrev pub get_day : Date → ℕ
get_day d = (6 + day_number d) % 7

-- The first of the next month and of the month before, as `new Date(year, month + 1, 1)` and
-- `new Date(year, month - 1, 1)` make them.
unfoldable pub first_of_next : Date → Date
first_of_next d =
    if d.month == 11
    then record { year = d.year + 1; month = 0; day = 1 }
    else record { year = d.year; month = d.month + 1; day = 1 }

unfoldable pub first_of_previous : Date → Date
first_of_previous d =
    if d.month == 0
    then record { year = d.year - 1; month = 11; day = 1 }
    else record { year = d.year; month = d.month - 1; day = 1 }

abbrev pub first_of : ℕ → ℕ → Date
first_of year month = record { year = year; month = month; day = 1 }

-- `getDaysInMonth`: the day before the first of the next month.
unfoldable pub get_days_in_month : ℕ → ℕ → ℕ
get_days_in_month year month =
    day_number (first_of_next (first_of year month)) - day_number (first_of year month)

-- `getFirstDayOfMonth`
unfoldable pub get_first_day_of_month : ℕ → ℕ → ℕ
get_first_day_of_month year month = get_day (first_of year month)

-- `formatDate`
unfoldable pub format_date : Date → Text
format_date d =
    print d.year ++ 45 ∷ (pad_start 2 48 (print (d.month + 1)) ++ 45 ∷ pad_start 2 48 (print d.day))

-- The state, with the calls of `onChange`, the last one first.
pub record Picker : Type 0 where
  pub is_open : Bool
  pub current_date : Date
  pub changes : List Text

-- `handleDateClick`, for a day of the month.
unfoldable pub handle_date_click : ℕ → ℕ → ℕ → Picker → Picker
handle_date_click day_idx year month p = record p {
  changes = format_date (record { year = year; month = month; day = day_idx }) ∷ p.changes;
  is_open = false;
}

-- `handleToday`
unfoldable pub handle_today : Date → Picker → Picker
handle_today today p = record p {
  changes = format_date today ∷ p.changes;
  current_date = today;
  is_open = false;
}

-- `handleClear`
unfoldable pub handle_clear : Picker → Picker
handle_clear p = record p { changes = [] ∷ p.changes; is_open = false }

-- `nextMonth` and `prevMonth`
unfoldable pub next_month : Picker → Picker
next_month p = record p { current_date = first_of_next p.current_date }

unfoldable pub prev_month : Picker → Picker
prev_month p = record p { current_date = first_of_previous p.current_date }

-- A cell of the grid: a day of the month before, of this month, or of the next.
pub data Cell : Type 0 where
  prev_cell : ℕ → Cell
  day_cell : (day : ℕ) (is_selected is_today : Bool) → Cell
  next_cell : ℕ → Cell

-- `for (let i = n - 1; i >= 0; i--)`
unfoldable pub prev_cells : ℕ → ℕ → List Cell
prev_cells prev_month_days zero = []
prev_cells prev_month_days (suc i) = prev_cell (prev_month_days - i) ∷ prev_cells prev_month_days i

-- `for (let i = first; i <= last; i++)`, `n` being the rounds.
unfoldable pub day_cells : (ℕ → Cell) → ℕ → ℕ → List Cell
day_cells cell first zero = []
day_cells cell first (suc n) = cell first ∷ day_cells cell (first + 1) n

unfoldable pub cell_of : ℕ → ℕ → Text → Date → ℕ → Cell
cell_of year month value today i =
    let date_str = format_date (record { year = year; month = month; day = i }) in
    day_cell i (text_eq value date_str) (text_eq (format_date today) date_str)

-- The days of the month before the one that is shown.
abbrev pub previous_days : Date → ℕ
previous_days d = let p = first_of_previous d in get_days_in_month p.year p.month

-- `renderCells`
unfoldable pub render_cells : Text → Date → Picker → List Cell
render_cells value today p =
    let year = p.current_date.year in
    let month = p.current_date.month in
    let cells =
      prev_cells (previous_days p.current_date) (get_first_day_of_month year month)
      ++ day_cells (cell_of year month value today) 1 (get_days_in_month year month) in
    cells ++ day_cells next_cell 1 (42 - length cells)
