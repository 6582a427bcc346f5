-- ===== src/Tests/Transfers.antt =====
-- The transfer form on two accounts.
use ikarin_bank.Prelude.{◌≡◌, refl, true, false, List, [], ◌∷◌, none, some, arith}
use ikarin_bank.Prelude.Int.{pos}
use ikarin_bank.Text.{Text, codes}
use ikarin_bank.Vault
use ikarin_bank.Vault.{Dialog, deposit, withdraw, Calls, api_failure}
use ikarin_bank.Transfer.{
  Account, find, Form, completed, request_of, handle_submit, handle_quick_chip,
}
use ikarin_bank.Transfer.Submit.{handle_submit_max}

abbrev checking : Account
checking = record { id = 1; name = codes "Checking"; is_main = true; balance = pos 12005 }

abbrev savings : Account
savings = record { id = 2; name = codes "Savings"; is_main = false; balance = pos 0 }

abbrev accounts : List Account
accounts = checking ∷ savings ∷ []

abbrev form : Form
form = record {
  from_account_id = 1;
  to_account_id = 2;
  amount = codes "25.50";
  commentary = [];
  loading = false;
  creating_savings = false;
  sent = [];
  created = [];
  notices = [];
}

-- The form whose destination is its source.
abbrev same : Form
same = record form { to_account_id = 1 }

abbrev clean : Text → Text
clean s = s

handle_submit_max_example :
    let form' = handle_quick_chip accounts (codes "max") form in
    ((handle_submit clean (codes "k") (completed none) accounts form').sent
      ≡ request_of clean (codes "k") form' ∷ [])
    × ((request_of clean (codes "k") form').amount ≡ some (pos 12005))
unfolding find
handle_submit_max_example =
    handle_submit_max clean (codes "k") (completed none) accounts form checking 12004 refl refl
      (λ h. ground arith) (λ h. ground arith) (λ h. ground arith)

abbrev dialog : Dialog
dialog = record {
  mode = withdraw;
  amount_str = codes "0.00";
  loading = false;
  error = none;
  created = [];
  refreshes = 0;
  sent = [];
  successes = [];
  closed = false;
}

-- The transfer goes through, the refresh behind it fails.
abbrev calls : Calls
calls = record {
  creation = none;
  first_refresh = none;
  transfer = none;
  last_refresh = some (api_failure none);
  type_error = codes "Cannot read properties of undefined";
}

abbrev deposit_half : Dialog
deposit_half = Vault.handle_quick_chip accounts (codes "50%") (record dialog { mode = deposit })
