-- ===== src/Schedule.antt =====
-- frontend/components/transfers/ScheduledTransferTab.tsx: the form that schedules a transfer to
-- a user. A handler runs on the state of the last rendering; its call ends with the outcome
-- that it is given. Dates are the texts of the fields: empty, or `YYYY-MM-DD`.
pub mod Frequencies
pub mod Submit
pub mod NextRuns
pub mod Summary
use ikarin_bank.Prelude.{
  ℕ, zero, suc, Bool, true, false, not, ◌&&◌, ◌||◌, List, [], ◌∷◌, ◌++◌, Option, none, some,
  if◌then◌else◌,
}
use ikarin_bank.Prelude.Int.{ℤ, pos, ltb_ℤ}
use ikarin_bank.Text.{Text, codes, is_empty, text_eq, trim, to_lower_case}
use ikarin_bank.Text.Decimal.{parse_int}
use ikarin_bank.Money.{to_cents}
use ikarin_bank.Transfer.{not_positive, text_or}

-- The body of `createScheduledTransfer`; a missing amount is NaN, and so is a missing number of
-- payments inside the other `Option`.
pub record ScheduleRequest : Type 0 where
  pub recipient_email : Text
  pub amount : Option ℤ
  pub frequency : Text
  pub frequency_interval : Text
  pub start_date : Text
  pub end_condition : Text
  pub end_date : Option Text
  pub max_occurrences : Option (Option ℤ)
  pub reserve_amount : Bool
  pub funding_account_id : Option ℕ
  pub subscriber_id : Option Text

-- The calls of `onSuccess` and `onError`.
pub data ScheduleNotice : Type 0 where
  scheduled : Text → ScheduleNotice
  refused : Text → ScheduleNotice

-- The state of the form, what it sent and what it told, the first call first.
pub record ScheduleForm : Type 0 where
  pub recipient : Text
  pub amount : Text
  pub frequency : Text
  pub freq_interval : Text
  pub start_date : Text
  pub end_condition : Text
  pub end_date : Text
  pub target_payments : Text
  pub reserve_amount : Bool
  pub source_account_id : Option ℕ
  pub subscriber_id : Text
  pub is_vendor : Bool
  pub loading : Bool
  pub sent : List ScheduleRequest
  pub notices : List ScheduleNotice

-- The state of the first rendering, on a day.
unfoldable pub initial : Text → ScheduleForm
initial today = record {
  recipient = [];
  amount = [];
  frequency = codes "Monthly";
  freq_interval = codes "1";
  start_date = today;
  end_condition = codes "Until Cancelled";
  end_date = [];
  target_payments = [];
  reserve_amount = false;
  source_account_id = none;
  subscriber_id = [];
  is_vendor = false;
  loading = false;
  sent = [];
  notices = [];
}

-- Whether a vendor has an email; `vendors` are their emails.
unfoldable pub has_email : Text → List Text → Bool
has_email email [] = false
has_email email (v ∷ vendors) = text_eq v email || has_email email vendors

-- The input of the recipient, with its effect.
unfoldable pub set_recipient : List Text → Text → ScheduleForm → ScheduleForm
set_recipient vendors s form = record form { recipient = s; is_vendor = has_email s vendors }

-- `freqMap[frequency] || "monthly"`
unfoldable pub frequency_of : Text → Text
frequency_of frequency =
    if text_eq frequency (codes "Daily")
    then codes "daily"
    else if text_eq frequency (codes "Weekly")
    then codes "weekly"
    else if text_eq frequency (codes "Monthly")
    then codes "monthly"
    else codes "monthly"

-- `condMap[endCondition] || "never"`
unfoldable pub condition_of : Text → Text
condition_of end_condition =
    if text_eq end_condition (codes "Until Cancelled")
    then codes "never"
    else if text_eq end_condition (codes "End Date")
    then codes "date"
    else if text_eq end_condition (codes "Number of Payments")
    then codes "occurrences"
    else codes "never"

-- `new Date(date).toISOString()`, which throws for an empty text: `none`.
unfoldable pub to_iso : Text → Option Text
to_iso [] = none
to_iso (c ∷ s) = some ((c ∷ s) ++ codes "T00:00:00.000Z")

abbrev pub given : Text → Option Text
given [] = none
given (c ∷ s) = some (c ∷ s)

-- `id || undefined`
abbrev pub nonzero : Option ℕ → Option ℕ
nonzero none = none
nonzero (some zero) = none
nonzero (some (suc i)) = some (suc i)

-- The body, with the start as the call has it.
unfoldable pub request_of : Text → ScheduleForm → ScheduleRequest
request_of start_date form = record {
  recipient_email = form.recipient;
  amount = to_cents (some form.amount);
  frequency = frequency_of form.frequency;
  frequency_interval = form.freq_interval;
  start_date = start_date;
  end_condition = condition_of form.end_condition;
  end_date = if text_eq form.end_condition (codes "End Date") then to_iso form.end_date else none;
  max_occurrences =
      if text_eq form.end_condition (codes "Number of Payments")
        && not (is_empty form.target_payments)
      then some (parse_int form.target_payments)
      else none;
  reserve_amount = form.reserve_amount;
  funding_account_id = nonzero form.source_account_id;
  subscriber_id = given form.subscriber_id;
}

-- How a call ends: with the id of what was made, with an `ApiError` and the detail of its body, or with
-- another error.
pub data Outcome : Type 0 where
  created : Text → Outcome
  api_failed : Option Text → Outcome
  failed : Outcome

abbrev pub tell : ScheduleNotice → ScheduleForm → ScheduleForm
tell notice form = record form { notices = form.notices ++ notice ∷ [] }

-- What the form tells of any error.
abbrev pub not_created : ScheduleForm → ScheduleForm
not_created form = tell (refused (codes "Failed to create scheduled transfer.")) form

abbrev pub answered : Outcome → ScheduleForm → ScheduleForm
answered (created id) form = record (tell (scheduled id) form) { recipient = []; amount = [] }
answered (api_failed detail) form = not_created form
answered failed form = not_created form

-- `handleSubmit` behind its guards; a start that is no date throws before the call.
abbrev pub send_schedule : Outcome → Option Text → ScheduleForm → ScheduleForm
send_schedule outcome none form = record (not_created form) { loading = false }
send_schedule outcome (some start_date) form =
    let loading = record form {
      loading = true;
      sent = form.sent ++ request_of start_date form ∷ [];
    } in
    record (answered outcome loading) { loading = false }

-- `cents > 500000`; no comparison holds of NaN.
abbrev pub is_over_limit : Option ℤ → Bool
is_over_limit none = false
is_over_limit (some cents) = ltb_ℤ (pos 500000) cents

-- `handleSubmit`
unfoldable pub handle_submit : Outcome → ScheduleForm → ScheduleForm
handle_submit outcome form =
    let cents = to_cents (some form.amount) in
    if is_empty (trim form.recipient) || (is_empty form.amount || not_positive cents)
    then tell (refused (codes "Please provide a valid recipient and amount.")) form
    else if is_over_limit cents
    then tell (refused (codes "Amount exceeds the maximum scheduled transfer limit of $5000.")) form
    else send_schedule outcome (to_iso form.start_date) form
