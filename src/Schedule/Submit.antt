-- ===== src/Schedule/Submit.antt =====
-- What the form of a schedule sends.
use ikarin_bank.Prelude.{◌≡◌, ◌≢◌, ◌⊎◌, false, [], ◌∷◌, ◌++◌, Option, none, some}
use ikarin_bank.Prelude.Int.{ℤ, pos, ◌≤ℤ◌}
use ikarin_bank.Text.{Text, trim}
use ikarin_bank.Money.{to_cents}
use ikarin_bank.Schedule.{ScheduleForm, request_of, to_iso}

-- An amount that is a number is between one cent and five thousand dollars. One that is not passes.
pub IsWithinLimit : Option ℤ → Type 0
IsWithinLimit none = Unit
IsWithinLimit (some c) = (pos 1 ≤ℤ c) × (c ≤ℤ pos 500000)

-- What a submission that tells no error at once does: it sends one request.
pub Schedules : ScheduleForm → ScheduleForm → Type 0
Schedules form form' =
    (start_date : Text) × (to_iso form.start_date ≡ some start_date)
    × (form'.sent ≡ form.sent ++ request_of start_date form ∷ [])
    × (form'.loading ≡ false)
    × (trim form.recipient ≢ [])
    × IsWithinLimit (to_cents (some form.amount))

-- What a submission does whose guards pass: it sends one request, or it fails before the call
-- since the start is no date.
pub Ends : ScheduleForm → ScheduleForm → Type 0
Ends form form' =
    ((form.start_date ≡ []) × (form'.sent ≡ form.sent) × (form'.loading ≡ false))
    ⊎ Schedules form form'
