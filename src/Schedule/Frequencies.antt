-- ===== src/Schedule/Frequencies.antt =====
-- What becomes of the frequency that a user picks.
use ikarin_bank.Prelude.{◌≡◌, ◌⊎◌, refl, Option, none, Bool-cases, inl, inr}
use ikarin_bank.Text.{Text, codes, text_eq}
use ikarin_bank.Schedule.{ScheduleForm, frequency_of, request_of}
use ikarin_bank.Schedule.NextRuns.{calculate_next_run_at}

-- A frequency is sent as one of three words.
frequency_of_cases :
    (f : Text)
    → (frequency_of f ≡ codes "daily")
      ⊎ ((frequency_of f ≡ codes "weekly") ⊎ (frequency_of f ≡ codes "monthly"))
unfolding frequency_of
frequency_of_cases f = elim (Bool-cases (text_eq f (codes "Daily"))) [
  | inl e ↦ rw e (inl refl)
  | inr d ↦ elim (Bool-cases (text_eq f (codes "Weekly"))) [
    | inl e ↦ rw d (rw e (inr (inl refl)))
    | inr w ↦ elim (Bool-cases (text_eq f (codes "Monthly"))) [
      | inl e ↦ rw d (rw w (rw e (inr (inr refl))))
      | inr m ↦ rw d (rw w (rw m (inr (inr refl))))
    ]
  ]
]

never_runs :
    (word : Text)
    → (word ≡ codes "daily") ⊎ ((word ≡ codes "weekly") ⊎ (word ≡ codes "monthly"))
    → (interval : Option Text) → calculate_next_run_at word interval ≡ none
unfolding calculate_next_run_at text_eq
never_runs word (inl e) interval = rw e refl
never_runs word (inr (inl e)) interval = rw e refl
never_runs word (inr (inr e)) interval = rw e refl

-- Whatever frequency the form has, the server finds no next run for the word that the form
-- sends, with any interval.
pub request_of-never_runs :
    (start_date : Text) (form : ScheduleForm) (interval : Option Text)
    → calculate_next_run_at (request_of start_date form).frequency interval ≡ none
unfolding request_of
request_of-never_runs start_date form interval =
    never_runs (frequency_of form.frequency) (frequency_of_cases form.frequency) interval
