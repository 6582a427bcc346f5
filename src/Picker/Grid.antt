-- ===== src/Picker/Grid.antt =====
-- The grid of the date picker.
use ikarin_bank.Prelude.{
  ℕ, zero, suc, ◌+◌, ◌-◌, ◌%◌, ◌≤◌, ◌<◌, ◌≡◌, refl, sym, ap, ◌∙◌, Bool, true, false, List, [], ◌∷◌,
  ◌++◌, ◌==◌, ==_iff, arith, Bool-cases, inl, inr, length, drop, length-append, get_elem?, some,
}
use ikarin_bank.Text.{Text, text_eq, pad_start}
use ikarin_bank.Text.Laws.{text_eq→eq, text_eq_refl}
use ikarin_bank.Text.Decimal.{print}
use ikarin_bank.Money.RoundTrip.{pair, pad-print}
use ikarin_bank.Picker.{
  Date, Picker, Cell, prev_cell, day_cell, next_cell, prev_cells, day_cells, cell_of, previous_days,
  render_cells, get_days_in_month, get_first_day_of_month, get_day, format_date, day_number,
  handle_date_click,
}
use ikarin_bank.Picker.Months.{get_days_in_month_lem}

abbrev pub is_selected : Cell → Bool
is_selected (prev_cell n) = false
is_selected (day_cell n selected today) = selected
is_selected (next_cell n) = false

length-prev_cells : (days n : ℕ) → length (prev_cells days n) ≡ n
unfolding prev_cells
length-prev_cells days zero = refl
length-prev_cells days (suc n) = ap suc (length-prev_cells days n)

length-day_cells : (cell : ℕ → Cell) (first n : ℕ) → length (day_cells cell first n) ≡ n
unfolding day_cells
length-day_cells cell first zero = refl
length-day_cells cell first (suc n) = ap suc (length-day_cells cell (first + 1) n)

get_elem?-day_cells :
    (cell : ℕ → Cell) (first n i : ℕ)
    → i < n
    → get_elem? (day_cells cell first n) i ≡ some (cell (first + i))
unfolding day_cells
get_elem?-day_cells cell first zero i h = absurd (omega arith)
get_elem?-day_cells cell first (suc n) zero h = ap (λ k. some (cell k)) (omega arith)
get_elem?-day_cells cell first (suc n) (suc i) h =
    get_elem?-day_cells cell (first + 1) n i (omega arith) ∙ ap (λ k. some (cell k)) (omega arith)

get_elem?-append_right :
    (xs ys : List Cell) (j i : ℕ) → j ≡ length xs + i → get_elem? (xs ++ ys) j ≡ get_elem? ys i
get_elem?-append_right [] ys j i e = ap (get_elem? ys) (omega arith)
get_elem?-append_right (x ∷ xs) ys zero i e = absurd (omega arith)
get_elem?-append_right (x ∷ xs) ys (suc j) i e = get_elem?-append_right xs ys j i (omega arith)

get_elem?-append_left :
    (xs ys : List Cell) (i : ℕ) → i < length xs → get_elem? (xs ++ ys) i ≡ get_elem? xs i
get_elem?-append_left [] ys i h = absurd (omega arith)
get_elem?-append_left (x ∷ xs) ys zero h = refl
get_elem?-append_left (x ∷ xs) ys (suc i) h = get_elem?-append_left xs ys i (omega arith)

get_first_day_of_month_bound : (y m : ℕ) → get_first_day_of_month y m < 7
unfolding get_first_day_of_month
get_first_day_of_month_bound y m = omega arith

get_days_in_month_bound : (y m : ℕ) → m < 12 → get_days_in_month y m ≤ 31
get_days_in_month_bound y m h = let e = (get_days_in_month_lem y m h).0 in ground arith

weekday_column :
    (y m d : ℕ)
    → 1 ≤ d
    → (get_first_day_of_month y m + (d - 1)) % 7 ≡ get_day (record { year = y; month = m; day = d })
unfolding get_first_day_of_month day_number
weekday_column y m d h = omega arith

-- The grid has six rows of seven cells. Its cells are those of the days of the month from the
-- weekday of the first on, so that each day of the month stands in the column of its weekday.
pub render_cells_lem :
    (value : Text) (today : Date) (p : Picker) (d : ℕ)
    → p.current_date.month < 12
    → 1 ≤ d
    → d ≤ get_days_in_month p.current_date.year p.current_date.month
    → let y = p.current_date.year in
      let m = p.current_date.month in
      let i = get_first_day_of_month y m + (d - 1) in
      (length (render_cells value today p) ≡ 42)
      × (get_elem? (render_cells value today p) i ≡ some (cell_of y m value today d))
      × (i % 7 ≡ get_day (record { year = y; month = m; day = d }))
unfolding render_cells
render_cells_lem value today p d h l u =
    let y = p.current_date.year in
    let m = p.current_date.month in
    let before = prev_cells (previous_days p.current_date) (get_first_day_of_month y m) in
    let days = day_cells (cell_of y m value today) 1 (get_days_in_month y m) in
    let after = day_cells next_cell 1 (42 - length (before ++ days)) in
    let f = length-prev_cells (previous_days p.current_date) (get_first_day_of_month y m) in
    let n = length-day_cells (cell_of y m value today) 1 (get_days_in_month y m) in
    let both = length-append before days in
    let i = get_first_day_of_month y m + (d - 1) in
    (
      omega (
        arith,
        f,
        n,
        both,
        length-append (before ++ days) after,
        length-day_cells next_cell 1 (42 - length (before ++ days)),
        get_first_day_of_month_bound y m,
        get_days_in_month_bound y m h,
      ),
      get_elem?-append_left (before ++ days) after i (omega (arith, f, n, both))
          ∙ get_elem?-append_right before days i (d - 1) (omega (arith, f))
          ∙ get_elem?-day_cells (cell_of y m value today) 1 (get_days_in_month y m) (d - 1)
              (omega arith)
          ∙ ap (λ k. some (cell_of y m value today k)) (omega arith),
      weekday_column y m d l,
    )

append_cancel : (xs : Text) {ys zs : Text} → xs ++ ys ≡ xs ++ zs → ys ≡ zs
append_cancel [] e = e
append_cancel (x ∷ xs) e = append_cancel xs (ap (drop 1) e)

pair_injective : (d e : ℕ) → d < 100 → e < 100 → pair d ≡ pair e → d ≡ e
pair_injective d e h k q = ground arith

format_date-day :
    (y m d e : ℕ)
    → d < 100
    → e < 100
    → format_date (record { year = y; month = m; day = d })
      ≡ format_date (record { year = y; month = m; day = e })
    → d ≡ e
unfolding format_date
format_date-day y m d e h k q = pair_injective d e h k (
    sym (pad-print d h)
    ∙ ap (drop 1)
        (append_cancel (pad_start 2 48 (print (m + 1))) (ap (drop 1) (append_cancel (print y) q)))
    ∙ pad-print e k)

same_day :
    (y m d e : ℕ)
    → d ≤ 31
    → e ≤ 31
    → text_eq
        (format_date (record { year = y; month = m; day = d }))
        (format_date (record { year = y; month = m; day = e }))
      ≡ (d == e)
same_day y m d e h k =
    let f = format_date (record { year = y; month = m; day = d }) in
    let g = format_date (record { year = y; month = m; day = e }) in
    elim (Bool-cases (text_eq f g)) [
      | inl t ↦
          let de : d ≡ e = format_date-day y m d e (omega arith) (omega arith) (text_eq→eq f g t) in
          t ∙ sym ((==_iff d e).1 de)
      | inr n ↦ elim (Bool-cases (d == e)) [
        | inl q ↦
            let same : text_eq f g ≡ true = rw ((==_iff d e).0 q) (text_eq_refl g) in ground arith
        | inr q ↦ n ∙ sym q
      ]
    ]

-- A click on a day closes the picker and passes on one date, and where that date is the value,
-- the day that was clicked is the one selected cell of the month.
pub handle_date_click_lem :
    (p : Picker) (y m d e : ℕ) (today : Date)
    → d ≤ 31
    → e ≤ 31
    → let p' = handle_date_click d y m p in
      let value = format_date (record { year = y; month = m; day = d }) in
      (p'.changes ≡ value ∷ p.changes)
      × (p'.is_open ≡ false)
      × (is_selected (cell_of y m value today e) ≡ (d == e))
unfolding handle_date_click cell_of
handle_date_click_lem p y m d e today h k = (refl, refl, same_day y m d e h k)
