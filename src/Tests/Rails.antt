-- ===== src/Tests/Rails.antt =====
-- The two forms that send over the rails of the Federal Reserve, on one account.
use ikarin_bank.Prelude.{◌≡◌, ◌≢◌, refl, true, false, List, [], ◌∷◌, none, some, inl, arith, take}
use ikarin_bank.Prelude.Int.{pos}
use ikarin_bank.Text.{Text, codes, is_digit, keep, every}
use ikarin_bank.Text.Decimal.{value}
use ikarin_bank.Routing.CheckDigit.{checksum}
use ikarin_bank.Text.Float.{finite}
use ikarin_bank.Routing.Validity.{IsRoutingNumber}
use ikarin_bank.Transfer.{Account}
use ikarin_bank.Badge
use ikarin_bank.Fed
use ikarin_bank.Fed.Sending
use ikarin_bank.Fed.{FedForm, found, Directory, set_routing_number, end_lookup}
use ikarin_bank.Fed.Sending.{Receipt}
use ikarin_bank.Fed.Lookup.{end_lookup_late}
use ikarin_bank.Hub.Execute
use ikarin_bank.Hub.{Hub, mounted, handle_select_quick_recipient}
use ikarin_bank.Hub.Execute.{completed, handle_execute_transfer}
use ikarin_bank.Hub.Steps.{start, next, picks, pays, IsKept, account_for, Reach-IsKept}
use ikarin_bank.Hub.Amounts.{cents_text, amount_of, request_of-cents}

abbrev checking : Account
checking = record { id = 7; name = codes "Checking"; is_main = true; balance = pos 50000 }

abbrev accounts : List Account
accounts = checking ∷ []

abbrev clean : Text → Text
clean s = s

abbrev form : FedForm
form = record Fed.initial {
  routing_number = codes "021000021";
  account_number = codes "9876543210";
  recipient_name = codes "Acme";
  amount = codes "12.34";
}

abbrev receipt : Receipt
receipt = record {
  transaction_id = codes "t1";
  imad = none;
  omad = none;
  end_to_end_id = codes "e1";
  trace_number = [];
}

-- The first of two numbers in the field, and a second with another last digit.
abbrev right : Text
right = codes "021000021"

abbrev wrong : Text
wrong = codes "021000022"

right-IsRoutingNumber : IsRoutingNumber (take 9 (keep is_digit right))
unfolding keep every checksum value
right-IsRoutingNumber = (refl, refl, (λ e. ground arith), refl, inl (omega arith))

wrong-IsRoutingNumber : ¬ IsRoutingNumber (take 9 (keep is_digit wrong))
unfolding keep every checksum value
wrong-IsRoutingNumber (_, _, _, sum, _) = ground arith

not_typed : take 9 (keep is_digit right) ≢ Fed.initial.routing_number
unfolding keep Fed.initial
not_typed e = ground arith

end_lookup_late_example :
    let form' = set_routing_number wrong (set_routing_number right Fed.initial) in
    let late = end_lookup 0 (found true (some (codes "Chase")) none []) form' in
    (form'.lookups ≡ take 9 (keep is_digit right) ∷ Fed.initial.lookups)
    × (form'.directory_info ≡ none)
    × (late.routing_number ≡ take 9 (keep is_digit wrong))
    × (late.validation_error ≡ none)
    × (late.directory_info ≡ some (record { institution = codes "Chase"; district = none }))
end_lookup_late_example =
    end_lookup_late right wrong (codes "Chase") none [] Fed.initial not_typed right-IsRoutingNumber
      wrong-IsRoutingNumber

-- The hub, without a payee, once somebody has been picked and paid.
abbrev picked : Hub
picked =
    handle_select_quick_recipient (codes "David Chen") (codes "021000021") Badge.fednow
      (mounted accounts none)

abbrev paid : Hub
paid = handle_execute_transfer (completed (codes "t1")) picked

Reach-IsKept_example : IsKept (account_for none) paid
Reach-IsKept_example = Reach-IsKept accounts none paid (
    next (next start (picks (codes "David Chen") (codes "021000021") Badge.fednow))
      (pays (completed (codes "t1"))))

abbrev hub : Hub
hub = record (mounted accounts none) { amount_str = cents_text 1234 }

request_of-cents_example :
    ((Sending.request_of clean checking (record form { amount = cents_text 1234 })).amount
      ≡ some (pos 1234))
    × (amount_of (Execute.request_of Badge.wire hub) ≡ finite false 1234 2 (pos 0))
request_of-cents_example =
    request_of-cents clean 1234 checking (record form { amount = cents_text 1234 }) Badge.wire hub
      refl refl
