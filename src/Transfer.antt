-- ===== src/Transfer.antt =====
-- frontend/components/transfers/BetweenAccountsTab.tsx: the form that moves money between two
-- accounts of a user, its effect and its handlers. Ids are natural numbers, balances integer
-- cents. A handler runs on the state of the last rendering; its calls of the network end with
-- the outcome that it is given.
pub mod Submit
pub mod Destination
use ikarin_bank.Prelude.{
  ℕ, suc, ◌+◌, ◌/◌, ◌%◌, Bool, true, false, not, ◌&&◌, ◌||◌, List, [], ◌∷◌, ◌++◌, Option, none,
  some, ◌==◌, ltb, if◌then◌else◌, length, filter,
}
use ikarin_bank.Prelude.Int.{ℤ, pos, negsuc, ltb_ℤ}
use ikarin_bank.Text.{Text, codes, text_eq, pad_start}
use ikarin_bank.Text.Decimal.{print}
use ikarin_bank.Money.{to_cents, magnitude, is_negative}

-- What the form takes from an account.
pub record Account : Type 0 where
  pub id : ℕ
  pub name : Text
  pub is_main : Bool
  pub balance : ℤ

-- `accounts.find(test)`
unfoldable pub find : (Account → Bool) → List Account → Option Account
find p [] = none
find p (a ∷ accounts) = let rest = find p accounts in if p a then some a else rest

abbrev pub has_id : ℕ → Account → Bool
has_id i a = a.id == i

abbrev pub has_other_id : ℕ → Account → Bool
has_other_id i a = not (a.id == i)

-- The body of a transfer; `none` is NaN.
pub record TransferRequest : Type 0 where
  pub from_account_id : ℕ
  pub to_account_id : ℕ
  pub amount : Option ℤ
  pub commentary : Text
  pub idempotency_key : Text

-- The calls of `onSuccess` and `onError`. `insufficient` shows the name of an account and its balance.
pub data Notice : Type 0 where
  success : Text → Notice
  error_text : Text → Notice
  insufficient : Text → ℤ → Notice

-- The state of the form, what it sent and what it told, the first call first.
pub record Form : Type 0 where
  pub from_account_id : ℕ
  pub to_account_id : ℕ
  pub amount : Text
  pub commentary : Text
  pub loading : Bool
  pub creating_savings : Bool
  pub sent : List TransferRequest
  pub created : List Text
  pub notices : List Notice

-- `a || b`, for an id that may be missing or 0.
abbrev pub id_or : Option ℕ → ℕ → ℕ
id_or none d = d
id_or (some i) d = if i == 0 then d else i

abbrev pub id_of : Option Account → Option ℕ
id_of none = none
id_of (some a) = some a.id

abbrev pub head : List Account → Option Account
head [] = none
head (a ∷ accounts) = some a

abbrev pub account_or : Option Account → Option Account → Option Account
account_or none d = d
account_or (some a) d = some a

-- The state of the first rendering.
unfoldable pub initial : List Account → Option ℕ → Option ℕ → Form
initial accounts initial_from_id initial_to_id =
    let main_account = account_or (find (λ a. a.is_main) accounts) (head accounts) in
    let sub_accounts = filter (λ a. not a.is_main) accounts in
    record {
      from_account_id = id_or initial_from_id (id_or (id_of main_account) 1);
      to_account_id = id_or initial_to_id (id_or (id_of (head sub_accounts)) 0);
      amount = [];
      commentary = [];
      loading = false;
      creating_savings = false;
      sent = [];
      created = [];
      notices = [];
    }

abbrev pub with_destination : Option Account → Form → Form
with_destination none form = form
with_destination (some a) form = record form { to_account_id = a.id }

-- The effect that moves the destination away from the source.
unfoldable pub update_destination : List Account → Form → Form
update_destination accounts form =
    if ltb 1 (length accounts)
      && (form.to_account_id == 0 || form.to_account_id == form.from_account_id)
    then with_destination (find (has_other_id form.from_account_id) accounts) form
    else form

abbrev pub from_account : List Account → Form → Option Account
from_account accounts form = find (has_id form.from_account_id) accounts

abbrev pub to_account : List Account → Form → Option Account
to_account accounts form = find (has_id form.to_account_id) accounts

abbrev pub swapped : Form → Form
swapped form = record form {
  from_account_id = form.to_account_id;
  to_account_id = form.from_account_id;
}

-- `handleSwap`
unfoldable pub handle_swap : List Account → Form → Form
handle_swap accounts form = elim (to_account accounts form) [
  | none ↦ form
  | some b ↦ elim (from_account accounts form) [ none ↦ form | some a ↦ swapped form ]
]

-- `(cents / 100).toFixed(2)`, exact below seventy trillion dollars.
unfoldable pub to_fixed_2 : ℤ → Text
to_fixed_2 cents =
    let n = magnitude cents in
    let digits = print (n / 100) ++ 46 ∷ pad_start 2 48 (print (n % 100)) in
    if is_negative cents then 45 ∷ digits else digits

-- `handleQuickChip`
unfoldable pub handle_quick_chip : List Account → Text → Form → Form
handle_quick_chip accounts val form =
    if text_eq val (codes "max")
    then elim (from_account accounts form) [
      | none ↦ form
      | some a ↦ record form { amount = to_fixed_2 a.balance }
    ]
    else record form { amount = val }

abbrev pub text_or : Option Text → Text → Text
text_or none d = d
text_or (some []) d = d
text_or (some (c ∷ s)) d = c ∷ s

-- How a call of the network ends: with the message of the answer, with an `ApiError` and the detail of
-- its body, or with another error and its message.
pub data Outcome : Type 0 where
  completed : Option Text → Outcome
  api_failed : Option Text → Outcome
  failed : Text → Outcome

abbrev pub tell : Notice → Form → Form
tell notice form = record form { notices = form.notices ++ notice ∷ [] }

abbrev pub ended : Outcome → Form → Form
ended (completed message) form = form
ended (api_failed detail) form =
    tell (error_text (text_or detail (codes "Failed to create savings vault"))) form
ended (failed message) form = tell (error_text message) form

-- `handleCreateDefaultSavings`, the call of the account and the refresh ending with one outcome.
unfoldable pub handle_create_default_savings : Outcome → Form → Form
handle_create_default_savings outcome form =
    let creating = record form {
      creating_savings = true;
      created = form.created ++ codes "High Yield Savings" ∷ [];
    } in
    record (ended outcome creating) { creating_savings = false }

-- `cents <= 0` and `balance < cents`; no comparison holds of NaN.
abbrev pub not_positive : Option ℤ → Bool
not_positive none = false
not_positive (some cents) = not (ltb_ℤ (pos 0) cents)

abbrev pub is_short : ℤ → Option ℤ → Bool
is_short balance none = false
is_short balance (some cents) = ltb_ℤ balance cents

-- The account that cannot pay, if the source is known and cannot.
abbrev pub short_account : Option ℤ → Option Account → Option Account
short_account cents none = none
short_account cents (some a) = if is_short a.balance cents then some a else none

abbrev pub answered : Outcome → Form → Form
answered (completed message) form =
    record (tell (success (text_or message (codes "Internal transfer completed"))) form) {
      amount = [];
      commentary = [];
    }
answered (api_failed detail) form =
    tell (error_text (text_or detail (codes "Internal transfer failed"))) form
answered (failed message) form =
    tell (error_text (text_or (some message) (codes "Failed to execute internal transfer"))) form

-- `sanitize` is `DOMPurify.sanitize`, a package; `key` is the idempotency key of this submission.
module _ (sanitize : Text → Text) (key : Text) where
  abbrev pub request_of : Form → TransferRequest
  request_of form = record {
    from_account_id = form.from_account_id;
    to_account_id = form.to_account_id;
    amount = to_cents (some form.amount);
    commentary = text_or (some (sanitize form.commentary)) (codes "Internal account transfer");
    idempotency_key = key;
  }

module _ (sanitize : Text → Text) (key : Text) (outcome : Outcome) where
  -- `handleSubmit` behind its guards.
  unfoldable pub send_transfer : Form → Form
  send_transfer form =
      let loading = record form {
        loading = true;
        sent = form.sent ++ request_of sanitize key form ∷ [];
      } in
      record (answered outcome loading) { loading = false }

  -- `handleSubmit`
  unfoldable pub handle_submit : List Account → Form → Form
  handle_submit accounts form =
      let cents = to_cents (some form.amount) in
      if not_positive cents
      then tell (error_text (codes "Please specify a valid transfer amount greater than $0.00."))
          form
      else if form.from_account_id == 0 || form.to_account_id == 0
      then tell (error_text (codes "Please select both source and destination accounts.")) form
      else if form.from_account_id == form.to_account_id
      then tell (error_text (codes "Source and destination accounts must be different.")) form
      else elim (short_account cents (from_account accounts form)) [
        | some a ↦ tell (insufficient a.name a.balance) form
        | none ↦ send_transfer form
      ]
