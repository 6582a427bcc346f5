-- ===== src/Hub/Execute.antt =====
-- frontend/components/transfers/SmartTransferHub.tsx: handleExecuteTransfer, with the bodies of
-- its calls.
use ikarin_bank.Prelude.{Bool, true, false, ◌||◌, [], ◌∷◌, ◌++◌, none, some, ◌==◌, if◌then◌else◌}
use ikarin_bank.Text.{Text, codes, includes}
use ikarin_bank.Text.Float.{Number, not_a_number, infinite, finite, parse_float}
use ikarin_bank.Badge.{FedRail, fednow, wire, ach, internal, card}
use ikarin_bank.Transfer.{text_or}
use ikarin_bank.Hub.{HubRequest, Hub, default_account, success, rail_request, p2p_request}

-- `isNaN(amountNum) || amountNum <= 0`
abbrev pub is_refused : Number → Bool
is_refused not_a_number = true
is_refused (infinite minus) = minus
is_refused (finite minus mantissa places exponent) = minus || mantissa == 0

-- The body for a rail, with the routing number and the name where the hub has none.
unfoldable pub rail_body : FedRail → Text → Text → Hub → HubRequest
rail_body rail routing name hub =
    rail_request rail hub.selected_source_account (parse_float hub.amount_str)
      (text_or (some hub.recipient_routing) routing) (text_or (some hub.recipient_name) name)
      (text_or (some hub.recipient_account) default_account) hub.memo

unfoldable pub p2p_body : Hub → HubRequest
p2p_body hub =
    p2p_request hub.selected_source_account
      (if includes hub.recipient_name (codes "@")
        then hub.recipient_name
        else codes "recipient@example.com")
      (parse_float hub.amount_str) hub.memo

-- What a payment over a rail sends.
unfoldable pub request_of : FedRail → Hub → HubRequest
request_of fednow hub = rail_body fednow (codes "021000021") (codes "Creditor") hub
request_of wire hub = rail_body wire (codes "011000015") (codes "Beneficiary") hub
request_of ach hub = rail_body ach (codes "121000358") (codes "Receiver") hub
request_of internal hub = p2p_body hub
request_of card hub = p2p_body hub

-- How a payment ends.
pub data Outcome : Type 0 where
  completed : Text → Outcome
  failed : Text → Outcome

abbrev pub answered : Outcome → Hub → Hub
answered (completed result) hub = record hub { completed_tx = some result; step = success }
answered (failed message) hub = record hub {
  submit_error =
      some (
        text_or (some message) (codes "Transfer failed. Please check your balance and try again."));
}

-- `handleExecuteTransfer`
unfoldable pub handle_execute_transfer : Outcome → Hub → Hub
handle_execute_transfer outcome hub =
    let submitting = record hub { is_submitting = true; submit_error = none } in
    if is_refused (parse_float hub.amount_str)
    then record submitting {
      submit_error = some (codes "Please enter a valid transfer amount.");
      is_submitting = false;
    }
    else record (answered outcome
        (record submitting { sent = hub.sent ++ request_of hub.selected_rail hub ∷ [] })) {
          is_submitting = false;
        }
