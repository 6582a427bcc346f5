-- ===== src/Monitor/Standing.antt =====
-- What the page shows whatever the server and the connections do.
use ikarin_bank.Prelude.{◌≢◌, Bool, true, false, Option, none, some, if◌then◌else◌, arith}
use ikarin_bank.Text.{Text}
use ikarin_bank.Query.{Source}
use ikarin_bank.Monitor.{
  Monitor, BankingMetrics, Chance, ConnectionStatus, connected, failed, testing, idle, Settings,
  initial, end_load_metrics, end_fetch_config, set_db_config, set_status, same_source,
  begin_test_connection, end_test_connection, clear_test_connection,
}

-- What happens on the page, in any order.
pub data Move : Monitor → Monitor → Type 0 where
  loads :
      {m : Monitor} (answer : Option BankingMetrics) (chance : Chance)
      → Move m (end_load_metrics answer chance m)
  configures :
      {m : Monitor} (env : Text) (config : Source → Settings)
      → Move m (end_fetch_config env config m)
  edits : {m : Monitor} (config : Source → Settings) → Move m (set_db_config config m)
  begins : {m : Monitor} (source : Source) → Move m (begin_test_connection source m)
  ends : {m : Monitor} (source : Source) → Move m (end_test_connection source m)
  clears : {m : Monitor} (source : Source) → Move m (clear_test_connection source m)

pub data Reach : Monitor → Type 0 where
  start : Reach initial
  next : {m m' : Monitor} → Reach m → Move m m' → Reach m'

pub NoFailure : Monitor → Type 0
NoFailure m = (source : Source) → m.connection_status source ≢ failed

status-cases :
    (b : Bool) (new old : ConnectionStatus)
    → new ≢ failed
    → old ≢ failed
    → (if b then new else old) ≢ failed
status-cases true new old h g = h
status-cases false new old h g = g

NoFailure-set :
    (source : Source) (status : ConnectionStatus) (m : Monitor)
    → status ≢ failed
    → NoFailure m
    → NoFailure (set_status source status m)
unfolding NoFailure set_status
NoFailure-set source status m h g other =
    status-cases (same_source source other) status (m.connection_status other) h (g other)

NoFailure-Move : {m m' : Monitor} → Move m m' → NoFailure m → NoFailure m'
unfolding NoFailure end_load_metrics end_fetch_config set_db_config begin_test_connection
    end_test_connection clear_test_connection
NoFailure-Move (loads none chance) g = g
NoFailure-Move (loads (some metrics) chance) g = g
NoFailure-Move (configures env config) g = g
NoFailure-Move (edits config) g = g
NoFailure-Move (begins {m} source) g = NoFailure-set source testing m (λ e. ground arith) g
NoFailure-Move (ends {m} source) g = NoFailure-set source connected m (λ e. ground arith) g
NoFailure-Move (clears {m} source) g = NoFailure-set source idle m (λ e. ground arith) g

-- Whatever the server answers and whatever is tested, no connection is ever shown as failed.
pub Reach-NoFailure : (m : Monitor) → Reach m → NoFailure m
unfolding NoFailure initial
Reach-NoFailure _ start = λ source e. ground arith
Reach-NoFailure _ (next {m} r s) = NoFailure-Move s (Reach-NoFailure m r)
