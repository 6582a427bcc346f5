-- ===== src/Fed/Sending.antt =====
-- frontend/components/transfers/FedTransferTab.tsx: handleSubmit, with what it sends and tells.
use ikarin_bank.Prelude.{
  ℕ, true, false, not, ◌||◌, List, [], ◌∷◌, ◌++◌, Option, none, some, ◌==◌, if◌then◌else◌, length,
}
use ikarin_bank.Text.{Text, codes, is_digit, keep, is_empty, trim}
use ikarin_bank.Money.{to_cents}
use ikarin_bank.Transfer.{Account, find, has_id, head, account_or, text_or, not_positive}
use ikarin_bank.Fed.{FedRail, FedRequest, FedNotice, FedForm, wire, fednow, ach, settled, refused}

-- What a rail answers: `imad` and `omad` of a wire, the ids of the others as the text shows them.
pub record Receipt : Type 0 where
  pub transaction_id : Text
  pub imad : Option Text
  pub omad : Option Text
  pub end_to_end_id : Text
  pub trace_number : Text

-- `err.detail?.detail`: missing, a text, or another value, as `JSON.stringify` prints it.
pub data Detail : Type 0 where
  missing : Detail
  detail_text : Text → Detail
  detail_json : Text → Detail

-- How a call of a rail ends: with a receipt, with an `ApiError` and its message, or with another error.
pub data FedOutcome : Type 0 where
  cleared : Receipt → FedOutcome
  api_failed : Detail → Text → FedOutcome
  failed : FedOutcome

abbrev pub tell : FedNotice → FedForm → FedForm
tell notice form = record form { notices = form.notices ++ notice ∷ [] }

-- The message of a success.
unfoldable pub receipt_text : FedRail → Receipt → Text
receipt_text wire res =
    codes "Fedwire RTGS settled! IMAD: "
    ++ text_or res.imad (codes "Generated")
    ++ codes " | OMAD: "
    ++ text_or res.omad (codes "Generated")
receipt_text fednow res =
    codes "FedNow 24/7 instant payment cleared! End-to-End ID: " ++ res.end_to_end_id
receipt_text ach res = codes "FedACH origination submitted! Trace: " ++ res.trace_number

abbrev pub detail_or : Detail → Text → Text
detail_or missing message = text_or (some message) (codes "Federal Reserve transfer failed")
detail_or (detail_text []) message =
    text_or (some message) (codes "Federal Reserve transfer failed")
detail_or (detail_text (c ∷ s)) message = c ∷ s
detail_or (detail_json s) message = s

abbrev pub answered : FedOutcome → FedForm → FedForm
answered (cleared res) form =
    record (tell (settled res.transaction_id (receipt_text form.rail res)) form) {
      amount = [];
      reference = [];
      account_number = [];
    }
answered (api_failed detail message) form = tell (refused (detail_or detail message)) form
answered failed form = tell (refused (codes "Network connection error. Please try again.")) form

-- The reference of a rail where the form has none.
abbrev pub default_reference : FedRail → Text
default_reference wire = codes "Fedwire Transfer"
default_reference fednow = codes "Instant Payment"
default_reference ach = codes "FedACH Transfer"

-- `accounts.find((a) => a.id === sourceAccountId) || accounts[0]`
abbrev pub selected_account : List Account → Option ℕ → Option Account
selected_account accounts none = head accounts
selected_account accounts (some i) = account_or (find (has_id i) accounts) (head accounts)

-- `sanitize` is `DOMPurify.sanitize`, a package.
module _ (sanitize : Text → Text) where
  unfoldable pub request_of : Account → FedForm → FedRequest
  request_of selected_account form = record {
    rail = form.rail;
    account_id = selected_account.id;
    amount = to_cents (some form.amount);
    receiver_routing = keep is_digit form.routing_number;
    receiver_name = trim form.recipient_name;
    receiver_account = trim form.account_number;
    payment_reference =
        text_or (some (sanitize (trim form.reference))) (default_reference form.rail);
  }

module _ (sanitize : Text → Text) (outcome : FedOutcome) where
  -- `handleSubmit` behind its guards.
  unfoldable pub send_transfer : Account → FedForm → FedForm
  send_transfer selected_account form =
      let loading = record form {
        loading = true;
        sent = form.sent ++ request_of sanitize selected_account form ∷ [];
      } in
      record (answered outcome loading) { loading = false }

  -- `handleSubmit`
  unfoldable pub handle_submit : List Account → FedForm → FedForm
  handle_submit accounts form =
      let clean_rtn = keep is_digit form.routing_number in
      if not (length clean_rtn == 9)
      then tell (refused (codes "Please enter a valid 9-digit ABA routing number.")) form
      else if is_empty (trim form.account_number)
      then tell (refused (codes "Please provide a beneficiary account number.")) form
      else if is_empty (trim form.recipient_name)
      then tell (refused (codes "Please enter the recipient or company name.")) form
      else if is_empty form.amount || not_positive (to_cents (some form.amount))
      then tell (refused (codes "Please provide a valid transfer amount.")) form
      else elim (selected_account accounts form.source_account_id) [
        | none ↦ tell (refused (codes "No funding account available.")) form
        | some a ↦ send_transfer a form
      ]
