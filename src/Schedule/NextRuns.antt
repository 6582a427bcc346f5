-- ===== src/Schedule/NextRuns.antt =====
-- backend/date_utils.py: the rule that finds the next run of a schedule.
use ikarin_bank.Prelude.{ℕ, [], ◌∷◌, Option, none, some, if◌then◌else◌}
use ikarin_bank.Text.{Text, codes, text_eq}

-- The rules by which `calculate_next_run_at` finds the next run.
pub data NextRun : Type 0 where
  after_days : ℕ → NextRun
  after_weeks : ℕ → NextRun
  add_one_month : NextRun
  get_next_weekday : Text → NextRun
  get_next_specific_date : Text → NextRun

abbrev pub with_interval : (Text → NextRun) → Option Text → Option NextRun
with_interval rule none = none
with_interval rule (some []) = none
with_interval rule (some (c ∷ s)) = some (rule (c ∷ s))

-- `calculate_next_run_at`
unfoldable pub calculate_next_run_at : Text → Option Text → Option NextRun
calculate_next_run_at frequency interval =
    if text_eq frequency (codes "One-time")
    then none
    else if text_eq frequency (codes "Daily")
    then some (after_days 1)
    else if text_eq frequency (codes "Weekly")
    then some (after_weeks 1)
    else if text_eq frequency (codes "Bi-weekly")
    then some (after_weeks 2)
    else if text_eq frequency (codes "Monthly")
    then some add_one_month
    else if text_eq frequency (codes "Specific Day of Week")
    then with_interval get_next_weekday interval
    else if text_eq frequency (codes "Specific Date of Month")
    then with_interval get_next_specific_date interval
    else none
