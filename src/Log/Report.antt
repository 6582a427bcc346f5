-- ===== src/Log/Report.antt =====
-- frontend/lib/errorLogger.ts: the report that logError makes of an error, and the outputs that
-- it goes to. A key of an object is no integer, which an object would list first.
use ikarin_bank.Prelude.{ℕ, Bool, not, ◌&&◌, List, [], ◌∷◌, ◌++◌, Option, none, some, if◌then◌else◌}
use ikarin_bank.Prelude.Int.{pos}
use ikarin_bank.Text.{Text, codes, text_eq}
use ikarin_bank.Log.{
  Value, undefined, null, boolean, number, text, array, object, Entries, no_entries, entry,
  index_items, sanitize_data, Severity, low, medium, high, critical, determine_error_severity,
  Config, Reply, Event, send_to_remote,
}

-- An `Error`.
pub record Failure : Type 0 where
  pub message : Text
  pub stack : Option Text

-- What `localStorage.getItem('bank_token')` does.
pub data Stored : Type 0 where
  item_of : Option Text → Stored
  throws : Stored

-- The host: whether there is a window, and which services it has.
pub record Host : Type 0 where
  pub has_window : Bool
  pub user_agent : Text
  pub url : Text
  pub stored : Stored
  pub now : Text
  pub sentry : Bool
  pub log_rocket : Bool
  pub datadog : Bool

-- The logger: what it tells of the service, its session and its configuration.
pub record Logger : Type 0 where
  pub service_name : Option Text
  pub environment : Option Text
  pub version : Option Text
  pub session_id : Text
  pub config : Config

-- `ErrorLogData`
pub record LogData : Type 0 where
  pub message : Text
  pub stack : Option Text
  pub timestamp : Text
  pub user_agent : Text
  pub url : Text
  pub user_id : Option Text
  pub session_id : Text
  pub error_id : Text
  pub severity : Severity
  pub tags : Entries
  pub additional_data : Value

-- `getUserId`
abbrev pub user_of : Stored → Option Text
user_of (item_of none) = some (codes "anonymous")
user_of (item_of (some [])) = some (codes "anonymous")
user_of (item_of (some (c ∷ s))) = some (codes "authenticated-user")
user_of throws = none

unfoldable pub get_user_id : Host → Option Text
get_user_id host = if host.has_window then user_of host.stored else none

abbrev pub text_or : Option Text → Text → Text
text_or none d = d
text_or (some []) d = d
text_or (some (c ∷ s)) d = c ∷ s

-- `{ ...entries, [key]: value }`
unfoldable pub set_entry : Text → Value → Entries → Entries
set_entry key v no_entries = entry key v no_entries
set_entry key v (entry k w entries) =
    let rest = set_entry key v entries in
    if text_eq k key then entry k v entries else entry k w rest

-- `{ ...entries, ...more }`
unfoldable pub spread : Entries → Entries → Entries
spread base no_entries = base
spread base (entry k v more) = spread (set_entry k v base) more

-- The entries of a value that is spread; one that is no object and no array has none.
unfoldable pub entries_of : Value → Entries
entries_of (object entries) = entries
entries_of (array items) = index_items 0 items
entries_of undefined = no_entries
entries_of null = no_entries
entries_of (boolean b) = no_entries
entries_of (number n) = no_entries
entries_of (text s) = no_entries

abbrev pub stack_value : Option Text → Value
stack_value none = undefined
stack_value (some s) = text s

unfoldable pub tags_of : Logger → Entries → Entries
tags_of logger tags =
    spread
      (entry (codes "serviceName")
        (text (text_or logger.service_name (codes "karin-bank-frontend")))
        (entry (codes "environment") (text (text_or logger.environment (codes "development")))
          (entry (codes "version") (text (text_or logger.version (codes "1.0.0"))) no_entries)))
      tags

-- The report.
unfoldable pub log_data_of : Host → Logger → Text → Failure → Value → Entries → LogData
log_data_of host logger error_id error data_given tags = record {
  message = error.message;
  stack = error.stack;
  timestamp = host.now;
  user_agent = if host.has_window then host.user_agent else codes "SSR";
  url = if host.has_window then host.url else codes "SSR";
  user_id = get_user_id host;
  session_id = logger.session_id;
  error_id = error_id;
  severity = determine_error_severity error.message;
  tags = tags_of logger tags;
  additional_data = sanitize_data data_given;
}

pub data ConsoleMethod : Type 0 where
  by_error by_warn by_info : ConsoleMethod

abbrev pub console_method : Severity → ConsoleMethod
console_method critical = by_error
console_method high = by_error
console_method medium = by_warn
console_method low = by_info

-- `severity.toUpperCase()`
abbrev pub severity_text : Severity → Text
severity_text low = codes "LOW"
severity_text medium = codes "MEDIUM"
severity_text high = codes "HIGH"
severity_text critical = codes "CRITICAL"

-- What an error comes to: a line on the console with its details, the sending of the report,
-- and the calls of the three services.
pub data Output : Type 0 where
  console : (method : ConsoleMethod) (line : Text) (details : Entries) → Output
  remote : LogData → List Event → Output
  to_sentry : (tags : Entries) (extra : Value) (user_id : Option Text) → Output
  to_log_rocket : (tags : Entries) (extra : Value) → Output
  to_datadog : (message : Text) → LogData → Output

abbrev pub console_line : LogData → Text
console_line d = codes "[" ++ severity_text d.severity ++ codes "] " ++ d.error_id ++ codes ":"

abbrev pub console_details : LogData → Entries
console_details d =
    spread
      (entry (codes "error") (text d.message)
        (entry (codes "stack") (stack_value d.stack) no_entries))
      (entries_of d.additional_data)

abbrev pub when : Bool → Output → List Output
when b o = if b then o ∷ [] else []

-- `integrateWithMonitoringServices`
unfoldable pub integrate_with_monitoring_services : Host → LogData → List Output
integrate_with_monitoring_services host d =
    when (host.has_window && host.sentry) (to_sentry d.tags d.additional_data d.user_id)
    ++ (when (host.has_window && host.log_rocket) (to_log_rocket d.tags d.additional_data)
        ++ when (host.has_window && host.datadog) (to_datadog d.message d))

-- `logError`; `reply` is what the attempts to send the report come to.
unfoldable pub log_error :
    (ℕ → Reply) → Host → Logger → Text → Failure → Value → Entries → List Output
log_error reply host logger error_id error data_given tags =
    let d = log_data_of host logger error_id error data_given tags in
    when logger.config.enable_console_logging
      (console (console_method d.severity) (console_line d) (console_details d))
    ++ remote d (send_to_remote reply logger.config) ∷ integrate_with_monitoring_services host d

-- `logUserAction`
unfoldable pub log_user_action : Logger → Text → Value → List (Text × Value)
log_user_action logger action data_given =
    if not logger.config.enable_console_logging
    then []
    else (codes "[USER ACTION] " ++ action ++ codes ":", sanitize_data data_given) ∷ []

-- `logPerformance`; `value_text` is the value as a text shows it.
unfoldable pub log_performance : Logger → Text → Text → Text → List Text
log_performance logger metric value_text unit =
    if not logger.config.enable_console_logging
    then []
    else (codes "[PERFORMANCE] " ++ metric ++ codes ": " ++ value_text ++ unit) ∷ []

-- The data and the tags with which `setupGlobalHandlers` logs an error and a rejection.
abbrev pub error_event_data : Text → ℕ → ℕ → Value
error_event_data filename lineno colno = object (
    entry (codes "filename") (text filename) (
      entry (codes "lineno") (number (some (pos lineno)))
        (entry (codes "colno") (number (some (pos colno))) no_entries)))

abbrev pub source_tag : Text → Entries
source_tag source = entry (codes "source") (text source) no_entries

unfoldable pub on_error : (ℕ → Reply) → Host → Logger → Text → Failure → Text → ℕ → ℕ → List Output
on_error reply host logger error_id error filename lineno colno =
    log_error reply host logger error_id error (error_event_data filename lineno colno)
      (source_tag (codes "unhandled-error"))

-- The message of the reason, if it has one.
unfoldable pub on_unhandled_rejection :
    (ℕ → Reply) → Host → Logger → Text → Option Text → Option Text → Value → List Output
on_unhandled_rejection reply host logger error_id message stack reason =
    log_error reply host logger error_id
      (record { message = text_or message (codes "Unhandled Promise Rejection"); stack = stack })
      (object (entry (codes "reason") reason no_entries))
      (source_tag (codes "unhandled-promise-rejection"))
