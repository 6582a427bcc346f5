-- ===== src/Hub.antt =====
-- frontend/components/transfers/SmartTransferHub.tsx: the three steps of a payment, the effect
-- that looks the routing number up, and the handlers; the one that pays is in Execute. A
-- handler runs on the state of the last rendering; a call of the network ends with the outcome
-- that it is given, an answer standing as the text that shows it.
pub mod Steps
pub mod Amounts
pub mod Execute
use ikarin_bank.Prelude.{
  ℕ, zero, ◌+◌, ◌-◌, Bool, true, false, not, ◌&&◌, ◌||◌, List, [], ◌∷◌, ◌++◌, Option, none, some,
  ◌==◌, ltb, if◌then◌else◌, length, get_elem?,
}
use ikarin_bank.Text.{Text, codes, is_digit, keep, is_empty, includes, text_eq}
use ikarin_bank.Text.Float.{Number, not_a_number, infinite, finite, parse_float}
use ikarin_bank.Routing.{account_number_regex}
use ikarin_bank.Aba.{AbaError, validate_aba_routing}
use ikarin_bank.Badge.{FedRail, fednow, wire, ach, internal, card}
use ikarin_bank.Transfer.{Account, head, id_of, id_or, text_or}
use ikarin_bank.Money.{magnitude}
use ikarin_bank.Feed.{drop_at}

-- What the hub takes from a `FastPayPayee`.
pub record Payee : Type 0 where
  pub name : Text
  pub routing_number : Option Text
  pub account_number : Option Text
  pub preferred_rail : FedRail

pub data Step : Type 0 where
  recipient amount_and_rail success : Step

-- The texts of `routingError`.
pub data RoutingHint : Type 0 where
  refused : AbaError → RoutingHint
  invalid_routing : RoutingHint
  enter_nine_digits : RoutingHint

-- The bodies of the calls of the hub: over a rail, with the routing number, the name and the
-- account of the receiver and a text for it, or to a user.
pub data HubRequest : Type 0 where
  rail_request :
      (rail : FedRail) (account_id : ℕ) (amount : Number) (routing name account reference : Text)
      → HubRequest
  p2p_request :
      (source_account_id : ℕ) (recipient_email : Text) (amount : Number) (commentary : Text)
      → HubRequest

-- The state, the lookups that have begun and not ended, the last one first, and what was sent,
-- the first call first.
pub record Hub : Type 0 where
  pub step : Step
  pub search_query : Text
  pub recipient_routing : Text
  pub recipient_account : Text
  pub recipient_name : Text
  pub selected_source_account : ℕ
  pub institution_name : Option Text
  pub district_name : Option Text
  pub lookup_loading : Bool
  pub routing_error : Option RoutingHint
  pub amount_str : Text
  pub selected_rail : FedRail
  pub memo : Text
  pub is_submitting : Bool
  pub submit_error : Option Text
  pub completed_tx : Option Text
  pub lookups : List Text
  pub sent : List HubRequest

-- The defaults for what a request lacks.
abbrev pub default_account : Text
default_account = codes "109823481"

-- `preferredRail === 'card' ? 'fednow' : preferredRail`
abbrev pub rail_of : FedRail → FedRail
rail_of fednow = fednow
rail_of wire = wire
rail_of ach = ach
rail_of internal = internal
rail_of card = fednow

-- The state of the first rendering.
unfoldable pub initial : List Account → Option Payee → Hub
initial accounts initial_payee = record {
  step = elim initial_payee [ none ↦ recipient | some p ↦ amount_and_rail ];
  search_query = elim initial_payee [ none ↦ [] | some p ↦ p.name ];
  recipient_routing = elim initial_payee [ none ↦ [] | some p ↦ text_or p.routing_number [] ];
  recipient_account = elim initial_payee [
    | none ↦ default_account
    | some p ↦ text_or p.account_number default_account
  ];
  recipient_name = elim initial_payee [ none ↦ [] | some p ↦ p.name ];
  selected_source_account = id_or (id_of (head accounts)) 1;
  institution_name = none;
  district_name = none;
  lookup_loading = false;
  routing_error = none;
  amount_str = codes "100.00";
  selected_rail = elim initial_payee [ none ↦ fednow | some p ↦ rail_of p.preferred_rail ];
  memo = codes "Payment via KarinBank";
  is_submitting = false;
  submit_error = none;
  completed_tx = none;
  lookups = [];
  sent = [];
}

abbrev pub hint_or : Option AbaError → RoutingHint
hint_or none = invalid_routing
hint_or (some e) = refused e

-- The effect of a new routing number, up to its call of the directory.
unfoldable pub validate_and_look_up : Hub → Hub
validate_and_look_up hub =
    let clean_routing = keep is_digit hub.recipient_routing in
    let validation = validate_aba_routing clean_routing in
    if length clean_routing == 9
    then if not validation.valid
      then record hub { routing_error = some (hint_or validation.error); institution_name = none }
      else record hub {
        routing_error = none;
        lookup_loading = true;
        lookups = clean_routing ∷ hub.lookups;
      }
    else record hub {
      institution_name = none;
      routing_error =
          if ltb 0 (length clean_routing) && ltb (length clean_routing) 9
          then some enter_nine_digits
          else none;
    }

-- How a lookup ends: with the name of the institution, whether it is on FedNow and Fedwire, and
-- the name of the district, or with an answer that names no institution, or with an error.
pub data LookupOutcome : Type 0 where
  found :
      (name : Text) (fednow_participant fedwire_participant : Bool) (district : Option Text)
      → LookupOutcome
  unnamed : LookupOutcome
  lookup_failed : LookupOutcome

-- The rail of an institution, where it is on one of the two.
abbrev pub rail_for : Bool → Bool → FedRail → FedRail
rail_for true fedwire rail = fednow
rail_for false true rail = wire
rail_for false false rail = rail

-- `${validation.district} Federal Reserve District Bank`, with its district.
abbrev pub district_bank : Option Text → Hub → Hub
district_bank district hub = record hub {
  institution_name = some (
      elim district [ none ↦ codes "undefined" | some d ↦ d ]
      ++ codes " Federal Reserve District Bank");
  district_name = some (text_or district (codes "Federal Reserve"));
}

-- The answer about a number whose district the validation told.
abbrev pub answer_of : Option Text → LookupOutcome → Hub → Hub
answer_of validated (found [] on_fednow on_fedwire district) hub = district_bank validated hub
answer_of validated (found (c ∷ name) on_fednow on_fedwire district) hub = record hub {
  institution_name = some (c ∷ name);
  district_name = some (text_or district (text_or validated (codes "Federal Reserve")));
  selected_rail = rail_for on_fednow on_fedwire hub.selected_rail;
}
answer_of validated unnamed hub = district_bank validated hub
answer_of validated lookup_failed hub = district_bank validated hub

-- The end of a lookup, about the number that it asked for.
abbrev pub end_lookup_of : ℕ → LookupOutcome → Option Text → Hub → Hub
end_lookup_of i outcome none hub = hub
end_lookup_of i outcome (some clean_routing) hub =
    record (answer_of (validate_aba_routing clean_routing).district outcome hub) {
      lookup_loading = false;
      lookups = drop_at i hub.lookups;
    }

-- The end of the lookup at a position.
unfoldable pub end_lookup : ℕ → LookupOutcome → Hub → Hub
end_lookup i outcome hub = end_lookup_of i outcome (get_elem? hub.lookups i) hub

-- The first rendering with its effect.
unfoldable pub mounted : List Account → Option Payee → Hub
mounted accounts initial_payee = validate_and_look_up (initial accounts initial_payee)

-- `setRecipientRouting`; the effect runs if the text is another one.
unfoldable pub set_recipient_routing : Text → Hub → Hub
set_recipient_routing s hub =
    if text_eq s hub.recipient_routing
    then hub
    else validate_and_look_up (record hub { recipient_routing = s })

-- `handleSelectQuickRecipient`
unfoldable pub handle_select_quick_recipient : Text → Text → FedRail → Hub → Hub
handle_select_quick_recipient name routing rail hub =
    set_recipient_routing routing
      (record hub { recipient_name = name; selected_rail = rail; step = amount_and_rail })

-- The input of the search. Digits are a routing number too; nothing else changes that.
unfoldable pub set_search_query : Text → Hub → Hub
set_search_query s hub =
    let hub' = record hub { search_query = s; recipient_name = s } in
    if account_number_regex s then set_recipient_routing s hub' else hub'

-- The buttons `Proceed to Amount`, which needs a name or a routing number, `Change` and `Back`.
unfoldable pub proceed : Hub → Hub
proceed hub =
    if is_empty hub.recipient_name && is_empty hub.recipient_routing
    then hub
    else record hub { step = amount_and_rail }

unfoldable pub go_back : Hub → Hub
go_back hub = record hub { step = recipient }

-- The chips and the input of the amount, the rails and the memo.
unfoldable pub set_amount_str : Text → Hub → Hub
set_amount_str s hub = record hub { amount_str = s }

unfoldable pub set_selected_rail : FedRail → Hub → Hub
set_selected_rail rail hub = record hub { selected_rail = rail }

unfoldable pub set_memo : Text → Hub → Hub
set_memo s hub = record hub { memo = s }

-- `Send Another Payment`
unfoldable pub send_another : Hub → Hub
send_another hub = record hub { step = recipient; search_query = []; amount_str = codes "100.00" }
