-- ===== src/Tests/Logs.antt =====
-- The error logger on concrete data and replies.
use ikarin_bank.Prelude.{ℕ, zero, suc, ◌≤◌, ◌≡◌, ◌&&◌, refl, true, false, some, none, if◌then◌else◌}
use ikarin_bank.Text.{codes}
use ikarin_bank.Log.{
  Value, text, array, object, no_items, item, no_entries, entry, Config, Reply, ok, not_ok, threw,
  send_to_remote,
}
use ikarin_bank.Log.Report.{Host, Logger, item_of}
use ikarin_bank.Log.Loop.{posts, reports, all_fail}
use ikarin_bank.Log.Sending.{send_to_remote_bounds}

abbrev data_of : Value
data_of = array (
    item
      (object (
        entry (codes "userToken") (text (codes "abc"))
          (entry (codes "lines") (array (item (text (codes "x")) no_items)) no_entries)))
      no_items)

abbrev config : Config
config = record {
  endpoint = some (codes "/api/errors");
  enable_console_logging = true;
  enable_remote_logging = true;
  max_retries = some 3;
}

abbrev flaky : ℕ → Reply
flaky zero = threw
flaky (suc i) = ok

abbrev down : ℕ → Reply
down i = not_ok

send_to_remote_bounds_example :
    let log = send_to_remote flaky config in
    (1 ≤ posts log)
    × (posts log ≤ 3)
    × (reports log ≡ (if all_fail flaky 3 0 && true then 1 else 0))
send_to_remote_bounds_example = send_to_remote_bounds flaky config refl

abbrev host : Host
host = record {
  has_window = true;
  user_agent = codes "agent";
  url = codes "/";
  stored = item_of (some (codes "t"));
  now = codes "2025-01-01T00:00:00.000Z";
  sentry = true;
  log_rocket = false;
  datadog = true;
}

abbrev logger : Logger
logger = record {
  service_name = none;
  environment = none;
  version = none;
  session_id = codes "session_1";
  config = config;
}
