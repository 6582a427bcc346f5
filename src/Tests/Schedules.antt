-- ===== src/Tests/Schedules.antt =====
-- The form of a schedule.
use ikarin_bank.Prelude.{◌≡◌, refl, none, some}
use ikarin_bank.Text.{codes, text_eq}
use ikarin_bank.Schedule.{ScheduleForm, initial, request_of}
use ikarin_bank.Schedule.NextRuns.{calculate_next_run_at, add_one_month}
use ikarin_bank.Schedule.Frequencies.{request_of-never_runs}

abbrev form : ScheduleForm
form = record (initial (codes "2025-03-01")) { recipient = codes "a@b.c"; amount = codes "25.00" }

request_of-never_runs_example :
    calculate_next_run_at (request_of (codes "2025-03-01T00:00:00.000Z") form).frequency none ≡ none
request_of-never_runs_example = request_of-never_runs (codes "2025-03-01T00:00:00.000Z") form none

-- The word that the form shows has a next run.
monthly_test : calculate_next_run_at form.frequency none ≡ some add_one_month
unfolding calculate_next_run_at initial text_eq
monthly_test = refl
