-- ===== src/Schedule/Summary.antt =====
-- frontend/components/transfers/ScheduledTransferTab.tsx: the text that sums a schedule up.
use ikarin_bank.Prelude.{◌||◌, [], ◌++◌, some, if◌then◌else◌}
use ikarin_bank.Text.{Text, codes, is_empty, text_eq, to_lower_case}
use ikarin_bank.Transfer.{text_or}
use ikarin_bank.Schedule.{ScheduleForm}

-- What `renderSummary` says of the repetition.
unfoldable pub repetition : ScheduleForm → Text
repetition form =
    if text_eq form.frequency (codes "One-time")
    then codes "This is a single payment."
    else codes "It will repeat "
      ++ to_lower_case form.frequency
      ++ codes " "
      ++ (if text_eq form.frequency (codes "Specific Day of Week")
          then codes "on " ++ form.freq_interval ++ codes " "
          else [])
      ++ (if text_eq form.frequency (codes "Specific Date of Month")
          then codes "on the " ++ form.freq_interval ++ codes "th "
          else [])
      ++ (if text_eq form.end_condition (codes "Until Cancelled")
          then codes "until you cancel it."
          else [])
      ++ (if text_eq form.end_condition (codes "End Date")
          then codes "until " ++ text_or (some form.end_date) (codes "[Date]") ++ codes "."
          else [])
      ++ (if text_eq form.end_condition (codes "Number of Payments")
          then codes "for a total of "
            ++ text_or (some form.target_payments) (codes "[N]")
            ++ codes " payments."
          else [])

-- `renderSummary`
unfoldable pub render_summary : ScheduleForm → Text
render_summary form =
    if is_empty form.amount || is_empty form.start_date
    then codes "Fill out the form to see your schedule summary."
    else codes "Next payment of $"
      ++ form.amount
      ++ codes " will be sent on "
      ++ form.start_date
      ++ codes ". "
      ++ repetition form
