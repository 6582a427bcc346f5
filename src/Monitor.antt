-- ===== src/Monitor.antt =====
-- frontend/app/admin/page.tsx: the figures of the bank with what stands in for them, the
-- configuration, and the tests of the connections. A call of the server ends with the outcome
-- that it is given; the clock and the random numbers are arguments.
pub mod Standing
use ikarin_bank.Prelude.{
  ℕ, zero, suc, ◌+◌, ◌-◌, Bool, true, false, List, [], ◌∷◌, ◌++◌, Option, none, some, if◌then◌else◌,
}
use ikarin_bank.Text.{Text, codes, is_empty, text_eq}
use ikarin_bank.Query.{Source, clickhouse, postgres, kafka}

pub record TopTransaction : Type 0 where
  pub merchant : Text
  pub amount : ℕ
  pub created_at : Text
  pub account_id : ℕ

pub record HourlyVolume : Type 0 where
  pub hour : ℕ
  pub count : ℕ
  pub total : ℕ

pub record MerchantStats : Type 0 where
  pub merchant : Text
  pub transaction_count : ℕ
  pub total_amount : ℕ

pub record UserGrowth : Type 0 where
  pub date : Text
  pub count : ℕ

-- `BankingMetrics`
pub record BankingMetrics : Type 0 where
  pub total_volume : ℕ
  pub transaction_count : ℕ
  pub total_balance : ℕ
  pub active_users : ℕ
  pub avg_transaction_size : ℕ
  pub top_transactions : List TopTransaction
  pub hourly_volume : List HourlyVolume
  pub merchant_stats : List MerchantStats
  pub user_growth : List UserGrowth

-- The clock and the random numbers of a call: the numbers that are drawn for each hour and day,
-- and the date of some days ago.
pub record Chance : Type 0 where
  pub now : Text
  pub count_of_hour : ℕ → ℕ
  pub total_of_hour : ℕ → ℕ
  pub count_of_day : ℕ → ℕ
  pub date_before : ℕ → Text

abbrev top : Text → Text → ℕ → ℕ → TopTransaction
top now merchant amount account_id = record {
  merchant = merchant;
  amount = amount;
  created_at = now;
  account_id = account_id;
}

abbrev stats_of : Text → ℕ → ℕ → MerchantStats
stats_of merchant n total = record {
  merchant = merchant;
  transaction_count = n;
  total_amount = total;
}

-- `Array.from({ length }, (_, i) => …)`, from the place `i` on.
unfoldable pub array_from {ℓ} : {A : Type ℓ} → ℕ → ℕ → (ℕ → A) → List A
array_from zero i f = []
array_from (suc n) i f = f i ∷ array_from n (i + 1) f

-- The figures that are shown when the call fails; the source writes them out twice.
unfoldable pub fallback_metrics : Chance → BankingMetrics
fallback_metrics c = record {
  total_volume = 145678050;
  transaction_count = 3421;
  total_balance = 892345678;
  active_users = 1247;
  avg_transaction_size = 42567;
  top_transactions =
      top c.now (codes "Amazon") 284750 1234
      ∷ top c.now (codes "Apple Store") 199900 5678
      ∷ top c.now (codes "Best Buy") 156789 9012
      ∷ top c.now (codes "Tesla") 120000 3456
      ∷ top c.now (codes "Home Depot") 98743 7890
      ∷ [];
  hourly_volume = array_from 24 0 (λ i. record {
    hour = i;
    count = c.count_of_hour i + 50;
    total = c.total_of_hour i + 1000000;
  });
  merchant_stats =
      stats_of (codes "Amazon") 234 4567890
      ∷ stats_of (codes "Walmart") 189 3214567
      ∷ stats_of (codes "Target") 156 2893412
      ∷ stats_of (codes "Starbucks") 342 893456
      ∷ stats_of (codes "McDonald's") 267 678923
      ∷ [];
  user_growth =
      array_from 30 0
        (λ i. record { date = c.date_before (29 - i); count = c.count_of_day i + 10 });
}

pub data ConnectionStatus : Type 0 where
  connected failed testing idle : ConnectionStatus

-- The settings of a source: names and values, in their order.
abbrev pub Settings : Type 0
Settings = List (Text × Text)

abbrev pub default_config : Source → Settings
default_config clickhouse =
    (codes "host", codes "localhost")
    ∷ (codes "port", codes "8123")
    ∷ (codes "username", codes "default")
    ∷ (codes "password", [])
    ∷ (codes "database", codes "banking")
    ∷ []
default_config postgres =
    (codes "host", codes "localhost")
    ∷ (codes "port", codes "5432")
    ∷ (codes "username", codes "admin")
    ∷ (codes "password", [])
    ∷ (codes "database", codes "banking_db")
    ∷ []
default_config kafka =
    (codes "bootstrap_servers", codes "localhost:9092")
    ∷ (codes "username", [])
    ∷ (codes "password", [])
    ∷ []

-- The state, with the status and the settings of each source.
pub record Monitor : Type 0 where
  pub environment : Text
  pub banking_metrics : Option BankingMetrics
  pub db_config : Source → Settings
  pub connection_status : Source → ConnectionStatus

-- The state of the first rendering.
unfoldable pub initial : Monitor
initial = record {
  environment = codes "development";
  banking_metrics = none;
  db_config = default_config;
  connection_status = λ source. idle;
}

-- The end of `loadBankingMetrics`: `none` for an answer that is not ok and for an error.
unfoldable pub end_load_metrics : Option BankingMetrics → Chance → Monitor → Monitor
end_load_metrics none chance m = record m { banking_metrics = some (fallback_metrics chance) }
end_load_metrics (some metrics) chance m = record m { banking_metrics = some metrics }

-- `{ ...settings, [key]: value }` and `{ ...settings, ...more }`
unfoldable pub set_setting : Text → Text → Settings → Settings
set_setting key value [] = (key, value) ∷ []
set_setting key value ((k, v) ∷ ss) =
    if text_eq k key then (k, value) ∷ ss else (k, v) ∷ set_setting key value ss

unfoldable pub merge : Settings → Settings → Settings
merge settings [] = settings
merge settings ((k, v) ∷ more) = merge (set_setting k v settings) more

-- The end of `fetchConfig`, with an answer that is ok.
unfoldable pub end_fetch_config : Text → (Source → Settings) → Monitor → Monitor
end_fetch_config env config m = record m {
  environment = if is_empty env then m.environment else env;
  db_config = λ source. merge (m.db_config source) (config source);
}

-- The tab of the configuration.
unfoldable pub set_db_config : (Source → Settings) → Monitor → Monitor
set_db_config config m = record m { db_config = config }

abbrev pub same_source : Source → Source → Bool
same_source clickhouse clickhouse = true
same_source postgres postgres = true
same_source kafka kafka = true
same_source _ _ = false

-- `setConnectionStatus(prev => ({ ...prev, [source]: status }))`
unfoldable pub set_status : Source → ConnectionStatus → Monitor → Monitor
set_status source status m = record m {
  connection_status =
      λ other. if same_source source other then status else m.connection_status other;
}

-- `handleTestConnection`: its begin, its end after the wait, and its timer. The wait never fails.
unfoldable pub begin_test_connection : Source → Monitor → Monitor
begin_test_connection source m = set_status source testing m

unfoldable pub end_test_connection : Source → Monitor → Monitor
end_test_connection source m = set_status source connected m

unfoldable pub clear_test_connection : Source → Monitor → Monitor
clear_test_connection source m = set_status source idle m
