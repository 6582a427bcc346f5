-- ===== src/Tests/Hooks.antt =====
-- The hooks that load data, the ledger of the bank, and the date picker.
use ikarin_bank.Prelude.{
  ℕ, ◌≡◌, ◌%◌, ◌+◌, ◌-◌, refl, true, false, List, [], ◌∷◌, none, some, arith, length, get_elem?,
}
use ikarin_bank.Text.{codes, text_eq}
use ikarin_bank.Feed
use ikarin_bank.Feed.{Feed, begin_fetch, succeed, fail, message_or}
use ikarin_bank.Feed.Rest.{start, next}
use ikarin_bank.Feed.Races.{visible, succeed_overtaken}
use ikarin_bank.Board
use ikarin_bank.Board.{Board, Params, ok, week, select_timeframe, end_fetch, mounted}
use ikarin_bank.Board.Timely
use ikarin_bank.Board.Timely.{IsCurrent, Reach-IsCurrent}
use ikarin_bank.Picker.{
  Date, Picker, get_days_in_month, get_first_day_of_month, get_day, render_cells, cell_of,
}
use ikarin_bank.Picker.Months.{get_days_in_month_lem}
use ikarin_bank.Picker.Grid.{render_cells_lem}

abbrev fresh : Feed ℕ ℕ
fresh = Feed.initial 0

abbrev begun : Feed ℕ ℕ
begun = begin_fetch false 24 fresh

mounted_test : fresh.mounted ≡ true
unfolding Feed.initial
mounted_test = refl

abbrev both : Feed ℕ ℕ
both = begin_fetch true 48 begun

succeed_overtaken_example :
    (visible (succeed 0 1 (succeed 0 2 both)) ≡ (1, false, false, none))
    × (visible (fail 0 [] (codes "Failed") (succeed 0 2 both))
        ≡ (2, false, false, some (message_or [] (codes "Failed"))))
    × ((succeed 0 1 (succeed 0 2 both)).pending ≡ fresh.pending)
succeed_overtaken_example =
    succeed_overtaken fresh false true 24 48 1 2 [] (codes "Failed") mounted_test

-- March 2024.
abbrev picker : Picker
picker = record {
  is_open = true;
  current_date = record { year = 2024; month = 2; day = 9 };
  changes = [];
}

abbrev today : Date
today = record { year = 2024; month = 2; day = 9 }

march_test : get_days_in_month 2024 2 ≡ 31
march_test = (get_days_in_month_lem 2024 2 (omega arith)).0

render_cells_lem_example :
    let i = get_first_day_of_month 2024 2 + (5 - 1) in
    (length (render_cells [] today picker) ≡ 42)
    × (get_elem? (render_cells [] today picker) i ≡ some (cell_of 2024 2 [] today 5))
    × (i % 7 ≡ get_day (record { year = 2024; month = 2; day = 5 }))
render_cells_lem_example =
    render_cells_lem [] today picker 5 (omega arith) (omega arith) (omega (arith, march_test))

-- The server's answer is the days that were asked for.
abbrev server : Params → List ℕ
server p = p.days ∷ []

-- Another range is selected, the first fetch fails, and the second one is answered.
abbrev ledger : Board ℕ
ledger = select_timeframe (some (codes "t")) week (mounted (some (codes "t")))

abbrev answer : List ℕ
answer = 7 ∷ []

pending_test :
    (end_fetch 1 Board.not_ok ledger).pending
    ≡ record { days = 7; search = none; category = none } ∷ []
unfolding end_fetch select_timeframe mounted Board.initial Board.begin_fetch Board.params_of
    Board.days_of text_eq
pending_test = refl

Reach-IsCurrent_example :
    IsCurrent server (end_fetch 0 (ok (some answer)) (end_fetch 1 Board.not_ok ledger))
Reach-IsCurrent_example =
    Reach-IsCurrent server 116 [] (end_fetch 0 (ok (some answer)) (end_fetch 1 Board.not_ok ledger))
      (Timely.next
        (Timely.next (Timely.next Timely.start (Timely.selects week))
          (Timely.older_ends 0 Board.not_ok))
        (Timely.last_ends (record { days = 7; search = none; category = none }) pending_test))

ledger_test :
    (end_fetch 0 (ok (some answer)) (end_fetch 1 Board.not_ok ledger)).transactions ≡ 7 ∷ []
unfolding end_fetch select_timeframe mounted Board.initial Board.begin_fetch Board.params_of
    Board.days_of text_eq
ledger_test = refl
