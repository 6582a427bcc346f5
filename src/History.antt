-- ===== src/History.antt =====
-- frontend/app/client/transactions/page.tsx: the history of the transactions with its filters,
-- the question that it asks the server, and its figures. Amounts are integer cents.
pub mod Figures
use ikarin_bank.Prelude.{
  ℕ, ◌+◌, Bool, true, false, not, ◌||◌, List, [], ◌∷◌, ◌++◌, Option, none, some, if◌then◌else◌,
  length, filter,
}
use ikarin_bank.Prelude.Int.{ℤ, pos, negsuc, ltb_ℤ, ◌+ℤ◌}
use ikarin_bank.Text.{Text, codes, is_empty}
use ikarin_bank.Text.Decimal.{print, parse_int}
use ikarin_bank.Money.{magnitude}

pub data TxType : Type 0 where
  all incoming outgoing : TxType

-- The state; a transaction is its amount.
pub record History : Type 0 where
  pub transactions : List ℤ
  pub loading : Bool
  pub day_range : ℕ
  pub custom_days : Text
  pub tx_type : TxType
  pub min_amount : Text
  pub max_amount : Text
  pub sort_asc : Bool

-- The state of the first rendering.
unfoldable pub initial : History
initial = record {
  transactions = [];
  loading = true;
  day_range = 1;
  custom_days = [];
  tx_type = all;
  min_amount = [];
  max_amount = [];
  sort_asc = false;
}

abbrev pub type_param : TxType → List (Text × Text)
type_param all = []
type_param incoming = (codes "tx_type", codes "incoming") ∷ []
type_param outgoing = (codes "tx_type", codes "outgoing") ∷ []

abbrev pub text_param : Text → Text → List (Text × Text)
text_param key [] = []
text_param key (c ∷ s) = (key, c ∷ s) ∷ []

-- The parameters of `fetchTransactions`, in their order.
unfoldable pub params_of : History → List (Text × Text)
params_of h =
    (codes "days", print h.day_range)
    ∷ (type_param h.tx_type
        ++ (text_param (codes "min_amount") h.min_amount
            ++ (text_param (codes "max_amount") h.max_amount
                ++ (codes "sort", if h.sort_asc then codes "asc" else codes "desc") ∷ [])))

-- `fetchTransactions` up to its call, and behind it: `none` for an answer that is not ok and
-- for an error.
unfoldable pub begin_fetch_transactions : History → History
begin_fetch_transactions h = record h { loading = true }

unfoldable pub end_fetch_transactions : Option (List ℤ) → History → History
end_fetch_transactions none h = record h { loading = false }
end_fetch_transactions (some answer) h = record h { transactions = answer; loading = false }

-- `applyPreset`
unfoldable pub apply_preset : ℕ → History → History
apply_preset days h = record h { custom_days = []; day_range = days }

abbrev pub text_or : Text → Text → Text
text_or [] d = d
text_or (c ∷ s) d = c ∷ s

-- `applyCustomDays` behind `parseInt`; `none` is NaN.
abbrev pub with_days : Option ℤ → History → History
with_days none h = h
with_days (some (negsuc n)) h = h
with_days (some (pos n)) h = if ltb_ℤ (pos 0) (pos n) then record h { day_range = n } else h

-- `applyCustomDays`
unfoldable pub apply_custom_days : History → History
apply_custom_days h = with_days (parse_int (text_or h.custom_days (codes "0"))) h

-- The button `Reset`.
unfoldable pub reset : History → History
reset h = record h {
  min_amount = [];
  max_amount = [];
  tx_type = all;
  day_range = 1;
  sort_asc = false;
}

-- The fields.
unfoldable pub set_filters : TxType → Text → Text → Bool → Text → History → History
set_filters tx_type min_amount max_amount sort_asc custom_days h = record h {
  tx_type = tx_type;
  min_amount = min_amount;
  max_amount = max_amount;
  sort_asc = sort_asc;
  custom_days = custom_days;
}

-- The sums of `stats`.
unfoldable pub sum_sizes : List ℤ → ℕ
sum_sizes [] = 0
sum_sizes (a ∷ rest) = magnitude a + sum_sizes rest

pub record Stats : Type 0 where
  pub total : ℕ
  pub sent : ℕ
  pub received : ℕ

-- `stats`; a sum of naturals does not depend on its direction.
unfoldable pub stats : History → Stats
stats h = record {
  total = length h.transactions;
  sent = sum_sizes (filter (λ a. ltb_ℤ a (pos 0)) h.transactions);
  received = sum_sizes (filter (λ a. ltb_ℤ (pos 0) a) h.transactions);
}
