-- ===== src/Tests/Sessions.antt =====
-- A session with a token that expires after two minutes.
use ikarin_bank.Prelude.{ℕ, ◌≡◌, true, Option, none, some, if◌then◌else◌}
use ikarin_bank.Text.{Text, codes}
use ikarin_bank.Client.{Store}
use ikarin_bank.Session.{Session, log_out, initial, timers_of, login, fire}
use ikarin_bank.Session.Timers.{AreAfter, last_timer, timers_of_lem}

abbrev exp_of : Text → Option ℕ
exp_of s = some 120

abbrev store : Store
store = record { bank_token = none; bank_refresh_token = some (codes "r") }

-- Logged in, and the session has run out.
abbrev logged : Session
logged = login exp_of 0 (codes "h.p.s") none (initial store)

abbrev expired : Session
expired = fire (log_out 120000) logged

timers_of_lem_example :
    AreAfter 0 (timers_of 0 120000)
    × (last_timer (timers_of 0 120000) ≡ (if true then some (log_out 120000) else none))
timers_of_lem_example = timers_of_lem 0 120000
