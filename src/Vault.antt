-- ===== src/Vault.antt =====
-- frontend/components/neobank/VaultTransferModal.tsx: the dialog that moves money between the
-- main account and the savings vault. A call of the network that fails is a `Failure`; `none`
-- is one that succeeds.
pub mod Execute
use ikarin_bank.Prelude.{
  ℕ, suc, ◌+◌, ◌/◌, Bool, true, false, not, ◌&&◌, ◌||◌, List, [], ◌∷◌, ◌++◌, Option, none, some,
  ◌==◌, if◌then◌else◌,
}
use ikarin_bank.Prelude.Int.{ℤ, pos, negsuc}
use ikarin_bank.Text.{Text, codes, text_eq, includes, to_lower_case}
use ikarin_bank.Money.{to_cents}
use ikarin_bank.Transfer.{
  Account, find, head, account_or, TransferRequest, to_fixed_2, not_positive, is_short, text_or,
}

pub data Mode : Type 0 where
  deposit withdraw : Mode

pub data Failure : Type 0 where
  api_failure : Option Text → Failure
  other_failure : Text → Failure

-- What the dialog shows as its error.
pub data VaultError : Type 0 where
  no_amount : VaultError
  insufficient : Mode → ℤ → VaultError
  message : Text → VaultError

-- The state of the dialog, and what it called: the accounts it created, the refreshes of the
-- balance, the transfers it sent, the successes it told, and whether it closed.
pub record Dialog : Type 0 where
  pub mode : Mode
  pub amount_str : Text
  pub loading : Bool
  pub error : Option VaultError
  pub created : List Text
  pub refreshes : ℕ
  pub sent : List TransferRequest
  pub successes : List (Mode × Option ℤ)
  pub closed : Bool

-- The effect that follows the properties.
unfoldable pub sync_mode : Bool → Mode → Dialog → Dialog
sync_mode is_open initial_mode d =
    if is_open then record d { mode = initial_mode; error = none } else d

-- `mainAccount`
unfoldable pub main_account : List Account → Option Account
main_account accounts = account_or (find (λ a. a.is_main) accounts) (head accounts)

abbrev pub is_vault : Account → Bool
is_vault a =
    not a.is_main
    && (includes (to_lower_case a.name) (codes "savings")
        || includes (to_lower_case a.name) (codes "vault"))

-- `savingsAccount`
unfoldable pub savings_account : List Account → Option Account
savings_account accounts = account_or (find is_vault accounts) (find (λ a. not a.is_main) accounts)

abbrev pub balance_of : Option Account → ℤ
balance_of none = pos 0
balance_of (some a) = a.balance

-- `currentSourceBalance`
unfoldable pub current_source_balance : Mode → List Account → ℤ
current_source_balance deposit accounts = balance_of (main_account accounts)
current_source_balance withdraw accounts = balance_of (savings_account accounts)

-- `Math.floor(balance * 0.25)` and `Math.floor(balance * 0.5)`
abbrev pub floor_part : ℕ → ℤ → ℤ
floor_part k (pos n) = pos (n / k)
floor_part k (negsuc n) = negsuc (n / k)

-- `handleQuickChip`
unfoldable pub handle_quick_chip : List Account → Text → Dialog → Dialog
handle_quick_chip accounts val d =
    let balance = current_source_balance d.mode accounts in
    let amount_str =
      if text_eq val (codes "25%")
      then to_fixed_2 (floor_part 4 balance)
      else if text_eq val (codes "50%")
      then to_fixed_2 (floor_part 2 balance)
      else if text_eq val (codes "max")
      then to_fixed_2 balance
      else val in
    record d { error = none; amount_str = amount_str }

abbrev pub text_of : Failure → Text
text_of (api_failure detail) = text_or detail (codes "Vault transfer failed")
text_of (other_failure m) = text_or (some m) (codes "Connection error. Please try again.")

abbrev pub fail : Failure → Dialog → Dialog
fail e d = record d { error = some (message (text_of e)) }

-- How the calls of `handleExecuteTransfer` end, in their order, and what reading the id of no
-- account throws.
pub record Calls : Type 0 where
  pub creation : Option Failure
  pub first_refresh : Option Failure
  pub transfer : Option Failure
  pub last_refresh : Option Failure
  pub type_error : Text

abbrev pub commentary_of : Mode → Text
commentary_of deposit = codes "Deposit to Treasury High-Yield Savings Vault"
commentary_of withdraw = codes "Withdrawal from Treasury High-Yield Savings Vault to Checking"

abbrev pub from_id : Mode → ℕ → ℕ → ℕ
from_id deposit main savings = main
from_id withdraw main savings = savings

abbrev pub to_id : Mode → ℕ → ℕ → ℕ
to_id deposit main savings = savings
to_id withdraw main savings = main

-- `savingsAccount?.id`, where it is there and not 0.
abbrev pub known_id : Option Account → Option ℕ
known_id none = none
known_id (some a) = if a.id == 0 then none else some a.id

-- `mainAccount?.id ? mainAccount.id + 1 : 2`
abbrev pub guessed_id : Option Account → ℕ
guessed_id none = 2
guessed_id (some a) = if a.id == 0 then 2 else a.id + 1

module _ (key : Text) where
  unfoldable pub request_of : Dialog → Account → ℕ → TransferRequest
  request_of d main savings_id = record {
    from_account_id = from_id d.mode main.id savings_id;
    to_account_id = to_id d.mode main.id savings_id;
    amount = to_cents (some d.amount_str);
    commentary = commentary_of d.mode;
    idempotency_key = key;
  }

module _ (accounts : List Account) (key : Text) (calls : Calls) where
  abbrev pub succeed : Dialog → Dialog
  succeed d = record d {
    successes = d.successes ++ (d.mode, to_cents (some d.amount_str)) ∷ [];
    closed = true;
  }

  -- The transfer and what follows it.
  unfoldable pub send : ℕ → Dialog → Dialog
  send savings_id d = elim (main_account accounts) [
    | none ↦ fail (other_failure calls.type_error) d
    | some main ↦
        let d' = record d { sent = d.sent ++ request_of key d main savings_id ∷ [] } in
        elim calls.transfer [
          | some e ↦ fail e d'
          | none ↦ elim calls.last_refresh [
            | some e ↦ fail e (record d' { refreshes = suc d'.refreshes })
            | none ↦ succeed (record d' { refreshes = suc d'.refreshes })
          ]
        ]
  ]

  -- A vault is made first where none is known.
  unfoldable pub provide : Dialog → Dialog
  provide d = elim (known_id (savings_account accounts)) [
    | some savings_id ↦ send savings_id d
    | none ↦
        let d' = record d { created = d.created ++ codes "High Yield Savings" ∷ [] } in
        elim calls.creation [
          | some e ↦ fail e d'
          | none ↦ elim calls.first_refresh [
            | some e ↦ fail e (record d' { refreshes = suc d'.refreshes })
            | none ↦
                send (guessed_id (main_account accounts))
                  (record d' { refreshes = suc d'.refreshes })
          ]
        ]
  ]

  -- `handleExecuteTransfer`
  unfoldable pub handle_execute_transfer : Dialog → Dialog
  handle_execute_transfer d =
      let cents = to_cents (some d.amount_str) in
      let balance = current_source_balance d.mode accounts in
      if not_positive cents
      then record d { error = some no_amount }
      else if is_short balance cents
      then record d { error = some (insufficient d.mode balance) }
      else record (provide (record d { error = none; loading = true })) { loading = false }
