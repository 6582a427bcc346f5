-- ===== src/Fed.antt =====
-- frontend/components/transfers/FedTransferTab.tsx: the form that moves money over the rails of
-- the Federal Reserve, with its effect that looks a routing number up; handleSubmit is in
-- Sending. A handler runs on the state of the last rendering; a call of the network ends with
-- the outcome that it is given.
pub mod Submit
pub mod Lookup
pub mod Sending
use ikarin_bank.Prelude.{
  ℕ, ◌+◌, ◌-◌, Bool, true, false, not, ◌&&◌, ◌||◌, List, [], ◌∷◌, ◌++◌, Option, none, some, ◌==◌,
  ltb, if◌then◌else◌, length, take,
}
use ikarin_bank.Prelude.Int.{ℤ}
use ikarin_bank.Text.{Text, codes, is_digit, keep, is_empty, text_eq, trim}
use ikarin_bank.Money.{to_cents}
use ikarin_bank.Routing.{RoutingError, validate_routing_number}
use ikarin_bank.Transfer.{Account, find, has_id, head, account_or, text_or, not_positive}
use ikarin_bank.Feed.{drop_at}

-- `FedRail`
pub data FedRail : Type 0 where
  wire fednow ach : FedRail

-- The bodies of `createWireTransfer`, `createFedNowTransfer` and `createACHTransfer`, with the
-- names that the three share: the routing number, the name, the account and the text for the
-- receiver. The amount is in cents, `none` for NaN.
pub record FedRequest : Type 0 where
  pub rail : FedRail
  pub account_id : ℕ
  pub amount : Option ℤ
  pub receiver_routing : Text
  pub receiver_name : Text
  pub receiver_account : Text
  pub payment_reference : Text

-- `directoryInfo`
pub record Directory : Type 0 where
  pub institution : Text
  pub district : Option Text

-- The texts of `validationError`.
pub data Hint : Type 0 where
  invalid : RoutingError → Hint
  invalid_checksum : Hint
  told : Text → Hint
  not_found : Hint
  entering : ℕ → Hint

-- The calls of `onSuccess` and `onError`.
pub data FedNotice : Type 0 where
  settled : (transaction_id message : Text) → FedNotice
  refused : Text → FedNotice

-- The state of the form, the lookups that have begun and not ended, the last one first, what it
-- sent and what it told, the first call first. An account that is not chosen is `none`.
pub record FedForm : Type 0 where
  pub rail : FedRail
  pub routing_number : Text
  pub account_number : Text
  pub recipient_name : Text
  pub amount : Text
  pub reference : Text
  pub source_account_id : Option ℕ
  pub loading : Bool
  pub lookup_loading : Bool
  pub directory_info : Option Directory
  pub validation_error : Option Hint
  pub lookups : List Text
  pub sent : List FedRequest
  pub notices : List FedNotice

-- The state of the first rendering.
unfoldable pub initial : FedForm
initial = record {
  rail = fednow;
  routing_number = [];
  account_number = [];
  recipient_name = [];
  amount = [];
  reference = [];
  source_account_id = none;
  loading = false;
  lookup_loading = false;
  directory_info = none;
  validation_error = none;
  lookups = [];
  sent = [];
  notices = [];
}

-- `localVal.errors[0] || "Invalid ABA Routing Checksum"`
abbrev pub first_error : List RoutingError → Hint
first_error [] = invalid_checksum
first_error (e ∷ es) = invalid e

-- The effect of a new routing number, up to its call of the directory.
unfoldable pub validate_and_look_up : FedForm → FedForm
validate_and_look_up form =
    let clean_rtn = keep is_digit form.routing_number in
    let local_val = validate_routing_number clean_rtn in
    if length clean_rtn == 9
    then if not local_val.valid
      then record form {
        validation_error = some (first_error local_val.errors);
        directory_info = none;
      }
      else record form {
        validation_error = none;
        lookup_loading = true;
        lookups = clean_rtn ∷ form.lookups;
      }
    else record form {
      directory_info = none;
      validation_error =
          if ltb 0 (length clean_rtn) && ltb (length clean_rtn) 9
          then some (entering (length clean_rtn))
          else none;
    }

-- The input of the routing number; the effect runs if the text is another one.
unfoldable pub set_routing_number : Text → FedForm → FedForm
set_routing_number s form =
    let digits = take 9 (keep is_digit s) in
    if text_eq digits form.routing_number
    then form
    else validate_and_look_up (record form { routing_number = digits })

-- How a lookup ends: with the directory's answer, or with an error.
pub data LookupOutcome : Type 0 where
  found : (valid : Bool) (institution district : Option Text) (errors : List Text) → LookupOutcome
  lookup_failed : LookupOutcome

abbrev pub told_or : List Text → Hint
told_or [] = not_found
told_or ([] ∷ es) = not_found
told_or ((c ∷ s) ∷ es) = told (c ∷ s)

abbrev pub answer_of : LookupOutcome → FedForm → FedForm
answer_of (found true (some institution) district errors) form = record form {
  directory_info = some (record { institution = institution; district = district });
  validation_error = none;
}
answer_of (found true none district errors) form = record form {
  directory_info = none;
  validation_error = some (told_or errors);
}
answer_of (found false institution district errors) form = record form {
  directory_info = none;
  validation_error = some (told_or errors);
}
answer_of lookup_failed form = record form { directory_info = none }

-- The end of the lookup at a position.
unfoldable pub end_lookup : ℕ → LookupOutcome → FedForm → FedForm
end_lookup i outcome form =
    let form' = answer_of outcome form in
    record form' { lookup_loading = false; lookups = drop_at i form.lookups }
