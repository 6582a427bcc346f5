-- ===== src/Board.antt =====
-- frontend/components/admin/BankingDashboard.tsx: the ledger of the whole bank with its range,
-- its search and its inspector, and the bars of the hourly counts. A fetch begins and ends
-- apart, so that others can overtake it; the stored token and the answers are arguments. `T` is
-- a transaction of the server.
pub mod Timely
pub mod Bars
use ikarin_bank.Prelude.{
  ℕ, zero, suc, ◌+◌, ◌-◌, Bool, true, false, not, List, [], ◌∷◌, ◌++◌, Option, none, some, ◌==◌,
  ltb, if◌then◌else◌, map, length, drop, get_elem?,
}
use ikarin_bank.Prelude.Int.{ℤ, pos}
use ikarin_bank.Text.{Text, codes, is_empty, text_eq, pad_start}
use ikarin_bank.Text.Decimal.{print}
use ikarin_bank.Money.{format_currency}
use ikarin_bank.Feed.{drop_at}

-- The parameters of a call, but for the limit, which is always 100.
pub record Params : Type 0 where
  pub days : ℕ
  pub search : Option Text
  pub category : Option Text

-- The state, and the fetches that have begun and not ended, the last one first.
pub record Board (T : Type 0) : Type 0 where
  pub transactions : List T
  pub tx_loading : Bool
  pub selected_timeframe : ℕ
  pub search_query : Text
  pub selected_category : Text
  pub inspect_tx : Option T
  pub copied_key : Option Text
  pub pending : List Params

-- How a call ends: with an answer that is ok and its `transactions`, with one that is not, or
-- with an error.
pub data Outcome (T : Type 0) : Type 0 where
  ok : Option (List T) → Outcome T
  not_ok : Outcome T
  threw : Outcome T

-- A range that the page offers.
pub data Timeframe : Type 0 where
  day week month quarter all : Timeframe

unfoldable pub days_of : Timeframe → ℕ
days_of day = 1
days_of week = 7
days_of month = 30
days_of quarter = 90
days_of all = 365

module _ {T : Type 0} where
  -- The state of the first rendering.
  unfoldable pub initial : Board T
  initial = record {
    transactions = [];
    tx_loading = false;
    selected_timeframe = 30;
    search_query = [];
    selected_category = codes "all";
    inspect_tx = none;
    copied_key = none;
    pending = [];
  }

  unfoldable pub params_of : Board T → Params
  params_of b = record {
    days = b.selected_timeframe;
    search = if is_empty b.search_query then none else some b.search_query;
    category = if text_eq b.selected_category (codes "all") then none else some b.selected_category;
  }

  -- `fetchBankTransactions` up to its call: without a token there is none.
  unfoldable pub begin_fetch : Option Text → Board T → Board T
  begin_fetch none b = record b { tx_loading = false }
  begin_fetch (some []) b = record b { tx_loading = false }
  begin_fetch (some (c ∷ s)) b = record b { tx_loading = true; pending = params_of b ∷ b.pending }

  abbrev pub answered : Outcome T → Board T → Board T
  answered (ok (some transactions)) b = record b { transactions = transactions }
  answered (ok none) b = record b { transactions = [] }
  answered not_ok b = b
  answered threw b = b

  -- `fetchBankTransactions` behind its call.
  abbrev pub end_fetch_of : ℕ → Outcome T → Option Params → Board T → Board T
  end_fetch_of i outcome none b = b
  end_fetch_of i outcome (some params) b = record (answered outcome b) {
    tx_loading = false;
    pending = drop_at i b.pending;
  }

  -- The end of the fetch at a position.
  unfoldable pub end_fetch : ℕ → Outcome T → Board T → Board T
  end_fetch i outcome b = end_fetch_of i outcome (get_elem? b.pending i) b

  -- The first rendering with its effect.
  unfoldable pub mounted : Option Text → Board T
  mounted token = begin_fetch token initial

  -- The buttons of the range; the effect runs if the range is another one.
  unfoldable pub select_timeframe : Option Text → Timeframe → Board T → Board T
  select_timeframe token tf b =
      if days_of tf == b.selected_timeframe
      then b
      else begin_fetch token (record b { selected_timeframe = days_of tf })

  unfoldable pub set_search_query : Text → Board T → Board T
  set_search_query s b = record b { search_query = s }

  -- `handleSearchSubmit`, whose button is disabled during a fetch.
  unfoldable pub handle_search_submit : Option Text → Board T → Board T
  handle_search_submit token b = if b.tx_loading then b else begin_fetch token b

  -- A row of the list, and the inspector with its way out.
  unfoldable pub inspect : T → Board T → Board T
  inspect tx b = record b { inspect_tx = some tx }

  unfoldable pub close_inspector : Board T → Board T
  close_inspector b = record b { inspect_tx = none }

  -- `handleCopy`, and its timer.
  unfoldable pub handle_copy : Text → Board T → Board T
  handle_copy key b = record b { copied_key = some key }

  unfoldable pub clear_copied : Board T → Board T
  clear_copied b = record b { copied_key = none }

-- An entry of `hourlyVolume`.
pub record Hour : Type 0 where
  pub hour : ℕ
  pub count : Option ℕ
  pub total : Option ℕ

-- A row of the hours: its time, the width of its bar as a fraction, and its volume.
pub record HourRow : Type 0 where
  pub time : Text
  pub part : ℕ
  pub whole : ℕ
  pub volume : Text

abbrev pub or_zero : Option ℕ → ℕ
or_zero none = 0
or_zero (some n) = n

abbrev pub max : ℕ → ℕ → ℕ
max m n = if ltb m n then n else m

-- `Math.max(1, …)`
unfoldable pub max_hourly_count : List Hour → ℕ
max_hourly_count [] = 1
max_hourly_count (h ∷ hours) = max (max_hourly_count hours) (or_zero h.count)

unfoldable pub hour_row : ℕ → Hour → HourRow
hour_row max_count h = record {
  time = pad_start 2 48 (print h.hour) ++ codes ":00";
  part = or_zero h.count;
  whole = max_count;
  volume = format_currency (some (pos (or_zero h.total))) true;
}

-- `hourlyVolume.slice(-8).map(…)`
unfoldable pub hour_rows : List Hour → List HourRow
hour_rows hours = map (hour_row (max_hourly_count hours)) (drop (length hours - 8) hours)
