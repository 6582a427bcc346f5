-- ===== src/Instant.antt =====
-- frontend/components/transfers/InstantTransferTab.tsx: the form that pays a user at once. A
-- handler runs on the state of the last rendering; its call ends with the outcome that it is
-- given.
pub mod Submit
use ikarin_bank.Prelude.{
  ℕ, Bool, true, false, ◌||◌, List, [], ◌∷◌, ◌++◌, Option, none, some, if◌then◌else◌,
}
use ikarin_bank.Prelude.Int.{ℤ}
use ikarin_bank.Text.{Text, codes, is_empty, text_eq, trim}
use ikarin_bank.Money.{to_cents}
use ikarin_bank.Transfer.{not_positive, text_or}
use ikarin_bank.Schedule.{Outcome, created, api_failed, failed, has_email, given, nonzero}

-- The body of `createP2PTransfer`; an amount that is missing is NaN.
pub record P2pRequest : Type 0 where
  pub recipient_email : Text
  pub amount : Option ℤ
  pub commentary : Option Text
  pub source_account_id : Option ℕ
  pub subscriber_id : Option Text

-- The calls of `onSuccess` and `onError`.
pub data P2pNotice : Type 0 where
  paid : Text → P2pNotice
  refused : Text → P2pNotice

-- The state of the form, what it sent and what it told, the first call first.
pub record P2pForm : Type 0 where
  pub recipient : Text
  pub amount : Text
  pub commentary : Text
  pub source_account_id : Option ℕ
  pub subscriber_id : Text
  pub is_vendor : Bool
  pub loading : Bool
  pub sent : List P2pRequest
  pub notices : List P2pNotice

-- The state of the first rendering.
unfoldable pub initial : P2pForm
initial = record {
  recipient = [];
  amount = [];
  commentary = [];
  source_account_id = none;
  subscriber_id = [];
  is_vendor = false;
  loading = false;
  sent = [];
  notices = [];
}

-- The recipient with its effect; `vendors` are the emails of the vendors.
unfoldable pub set_recipient : List Text → Text → P2pForm → P2pForm
set_recipient vendors s form = record form { recipient = s; is_vendor = has_email s vendors }

-- A contact of the list is picked, with its id as a subscriber.
unfoldable pub pick_contact : List Text → Text → Option Text → P2pForm → P2pForm
pick_contact vendors email subscriber form =
    let form' = set_recipient vendors email form in
    record form' { subscriber_id = text_or subscriber form.subscriber_id }

abbrev pub tell : P2pNotice → P2pForm → P2pForm
tell notice form = record form { notices = form.notices ++ notice ∷ [] }

abbrev pub answered : Outcome → P2pForm → P2pForm
answered (created id) form = record (tell (paid id) form) {
  recipient = [];
  amount = [];
  commentary = [];
}
answered (api_failed detail) form = tell (refused (text_or detail (codes "Transfer failed"))) form
answered failed form = tell (refused (codes "Connection error. Please try again.")) form

-- `sanitize` is `DOMPurify.sanitize`, a package.
module _ (sanitize : Text → Text) where
  unfoldable pub request_of : P2pForm → P2pRequest
  request_of form = record {
    recipient_email = form.recipient;
    amount = to_cents (some form.amount);
    commentary = given (sanitize form.commentary);
    source_account_id = nonzero form.source_account_id;
    subscriber_id = given form.subscriber_id;
  }

module _ (sanitize : Text → Text) (outcome : Outcome) where
  -- `handleSubmit` behind its guard.
  unfoldable pub send_p2p : P2pForm → P2pForm
  send_p2p form =
      let loading = record form {
        loading = true;
        sent = form.sent ++ request_of sanitize form ∷ [];
      } in
      record (answered outcome loading) { loading = false }

  -- `handleSubmit`
  unfoldable pub handle_submit : P2pForm → P2pForm
  handle_submit form =
      if is_empty (trim form.recipient)
        || (is_empty form.amount || not_positive (to_cents (some form.amount)))
      then tell (refused (codes "Please provide a valid recipient and amount.")) form
      else send_p2p form
