-- ===== src/Log/Outputs.antt =====
-- What the outputs of an error show.
use ikarin_bank.Prelude.{List, [], ◌∷◌}
use ikarin_bank.Text.{Text}
use ikarin_bank.Log.Redaction.{IsClean, EntriesAreClean}
use ikarin_bank.Log.Report.{Output, console, remote, to_sentry, to_log_rocket, to_datadog}

-- The data of an output is clean.
unfoldable pub ShowsClean : Output → Type 0
ShowsClean (console method line details) = EntriesAreClean details
ShowsClean (remote d events) = IsClean d.additional_data
ShowsClean (to_sentry tags extra user_id) = IsClean extra
ShowsClean (to_log_rocket tags extra) = IsClean extra
ShowsClean (to_datadog message d) = IsClean d.additional_data

unfoldable pub EveryShowsClean : List Output → Type 0
EveryShowsClean [] = Unit
EveryShowsClean (o ∷ os) = ShowsClean o × EveryShowsClean os
