-- ===== src/Hub/Steps.antt =====
-- The moves of the hub, and what holds however they follow one another.
use ikarin_bank.Prelude.{
  ℕ, ◌≡◌, ◌≢◌, refl, ap, ◌∙◌, true, false, ◌&&◌, List, [], ◌∷◌, ◌++◌, Option, none, some,
  Bool-cases, inl, inr, arith, get_elem?,
}
use ikarin_bank.Text.{Text, is_empty, text_eq}
use ikarin_bank.Text.Float.{parse_float}
use ikarin_bank.Routing.{account_number_regex}
use ikarin_bank.Aba.{validate_aba_routing}
use ikarin_bank.Badge.{FedRail, fednow, wire, ach, internal, card}
use ikarin_bank.Transfer.{Account, text_or}
use ikarin_bank.Hub.{
  Hub, Payee, Step, recipient, amount_and_rail, success, HubRequest, rail_request, p2p_request,
  LookupOutcome, found, unnamed, lookup_failed, initial, mounted, validate_and_look_up, end_lookup,
  answer_of, handle_select_quick_recipient, set_recipient_routing, set_search_query, proceed,
  go_back, set_amount_str, set_selected_rail, set_memo, send_another, end_lookup_of,
  default_account,
}
use ikarin_bank.Hub.Execute.{
  Outcome, completed, failed, is_refused, request_of, handle_execute_transfer, rail_body, p2p_body,
  answered,
}

-- What a user and the network do to the hub, in any order.
pub data Move : Hub → Hub → Type 0 where
  picks :
      {h : Hub} (name routing : Text) (rail : FedRail)
      → Move h (handle_select_quick_recipient name routing rail h)
  searches : {h : Hub} (s : Text) → Move h (set_search_query s h)
  proceeds : {h : Hub} → Move h (proceed h)
  returns : {h : Hub} → Move h (go_back h)
  types_amount : {h : Hub} (s : Text) → Move h (set_amount_str s h)
  selects_rail : {h : Hub} (rail : FedRail) → Move h (set_selected_rail rail h)
  types_memo : {h : Hub} (s : Text) → Move h (set_memo s h)
  repeats : {h : Hub} → Move h (send_another h)
  learns : {h : Hub} (i : ℕ) (outcome : LookupOutcome) → Move h (end_lookup i outcome h)
  pays : {h : Hub} (outcome : Outcome) → Move h (handle_execute_transfer outcome h)

pub data Reach (accounts : List Account) (payee : Option Payee) : Hub → Type 0 where
  start : Reach accounts payee (mounted accounts payee)
  next : {h h' : Hub} → Reach accounts payee h → Move h h' → Reach accounts payee h'

-- A request with an amount that is a positive number; over a rail, to an account.
unfoldable pub IsSound : Text → HubRequest → Type 0
IsSound account (rail_request rail id amount routing name receiver reference) =
    (is_refused amount ≡ false) × (receiver ≡ account)
IsSound account (p2p_request id email amount commentary) = is_refused amount ≡ false

unfoldable pub EverySound : Text → List HubRequest → Type 0
EverySound account [] = Unit
EverySound account (r ∷ rs) = IsSound account r × EverySound account rs

-- The last step is shown with a payment that has been made.
unfoldable pub HasReceipt : Step → Option Text → Type 0
HasReceipt recipient tx = Unit
HasReceipt amount_and_rail tx = Unit
HasReceipt success tx = tx ≢ none

-- The account that the hub has from its payee, or its default.
unfoldable pub account_for : Option Payee → Text
account_for none = default_account
account_for (some p) = text_or p.account_number default_account

pub IsKept : Text → Hub → Type 0
IsKept account h =
    (h.recipient_account ≡ account) × HasReceipt h.step h.completed_tx × EverySound account h.sent

EverySound-append :
    (account : Text) (rs : List HubRequest) (r : HubRequest)
    → EverySound account rs
    → IsSound account r
    → EverySound account (rs ++ r ∷ [])
unfolding EverySound
EverySound-append account [] r h g = (g, tt)
EverySound-append account (q ∷ rs) r (s, h) g = (s, EverySound-append account rs r h g)

IsKept-validate :
    (account : Text) (h : Hub) → IsKept account h → IsKept account (validate_and_look_up h)
unfolding IsKept validate_and_look_up
IsKept-validate account h k = ground arith

IsKept-route :
    (account s : Text) (h : Hub) → IsKept account h → IsKept account (set_recipient_routing s h)
unfolding IsKept set_recipient_routing
IsKept-route account s h k = elim (Bool-cases (text_eq s h.recipient_routing)) [
  | inl e ↦ rw e k
  | inr e ↦ rw e (IsKept-validate account (record h { recipient_routing = s }) k)
]

IsKept-answer :
    (account : Text) (validated : Option Text) (outcome : LookupOutcome) (h : Hub)
    → IsKept account h
    → IsKept account (answer_of validated outcome h)
unfolding IsKept
IsKept-answer account validated (found [] on_fednow on_fedwire district) h k = k
IsKept-answer account validated (found (c ∷ name) on_fednow on_fedwire district) h k = k
IsKept-answer account validated unnamed h k = k
IsKept-answer account validated lookup_failed h k = k

IsKept-learn :
    (account : Text) (i : ℕ) (outcome : LookupOutcome) (asked : Option Text) (h : Hub)
    → IsKept account h
    → IsKept account (end_lookup_of i outcome asked h)
unfolding IsKept
IsKept-learn account i outcome none h k = k
IsKept-learn account i outcome (some c) h k =
    IsKept-answer account (validate_aba_routing c).district outcome h k

text_or-nonempty : (o : Option Text) → is_empty (text_or o default_account) ≡ false
text_or-nonempty none = refl
text_or-nonempty (some []) = refl
text_or-nonempty (some (c ∷ s)) = refl

text_or-given : (s d : Text) → is_empty s ≡ false → text_or (some s) d ≡ s
text_or-given [] d h = ground arith
text_or-given (c ∷ s) d h = refl

IsSound-body :
    (account : Text) (rail : FedRail) (routing name : Text) (h : Hub)
    → is_empty account ≡ false
    → h.recipient_account ≡ account
    → is_refused (parse_float h.amount_str) ≡ false
    → IsSound account (rail_body rail routing name h)
unfolding rail_body IsSound
IsSound-body account rail routing name h n e p =
    (p, ap (λ s. text_or (some s) default_account) e ∙ text_or-given account default_account n)

IsSound-request :
    (account : Text) (rail : FedRail) (h : Hub)
    → is_empty account ≡ false
    → h.recipient_account ≡ account
    → is_refused (parse_float h.amount_str) ≡ false
    → IsSound account (request_of rail h)
unfolding request_of p2p_body IsSound
IsSound-request account fednow h n e p = IsSound-body account fednow _ _ h n e p
IsSound-request account wire h n e p = IsSound-body account wire _ _ h n e p
IsSound-request account ach h n e p = IsSound-body account ach _ _ h n e p
IsSound-request account internal h n e p = p
IsSound-request account card h n e p = p

IsKept-outcome :
    (account : Text) (outcome : Outcome) (h : Hub)
    → IsKept account h
    → IsKept account (answered outcome h)
unfolding IsKept HasReceipt
IsKept-outcome account (completed result) (h) k = (k.0, (λ e. ground arith), k.2)
IsKept-outcome account (failed message) h k = k

IsKept-pay :
    (account : Text) (outcome : Outcome) (h : Hub)
    → is_empty account ≡ false
    → IsKept account h
    → IsKept account (handle_execute_transfer outcome h)
unfolding IsKept handle_execute_transfer
IsKept-pay account outcome h n k = elim (Bool-cases (is_refused (parse_float h.amount_str))) [
  | inl e ↦ rw e k
  | inr e ↦
      let sound = IsSound-request account h.selected_rail h n k.0 e in
      let requests = h.sent ++ request_of h.selected_rail h ∷ [] in
      let all = EverySound-append account h.sent (request_of h.selected_rail h) k.2 sound in
      rw e (
        IsKept-outcome account outcome
          (record h { is_submitting = true; submit_error = none; sent = requests }) (k.0, k.1, all))
]

account_for-given : (payee : Option Payee) → is_empty (account_for payee) ≡ false
unfolding account_for
account_for-given none = refl
account_for-given (some p) = text_or-nonempty p.account_number

IsKept-Move :
    (account : Text) {h h' : Hub}
    → is_empty account ≡ false
    → Move h h'
    → IsKept account h
    → IsKept account h'
unfolding IsKept HasReceipt handle_select_quick_recipient set_search_query proceed go_back
    set_amount_str set_selected_rail set_memo send_another end_lookup
IsKept-Move account n (picks {h} name routing rail) k =
    IsKept-route account routing
      (record h { recipient_name = name; selected_rail = rail; step = amount_and_rail })
      (k.0, tt, k.2)
IsKept-Move account n (searches {h} s) k = elim (Bool-cases (account_number_regex s)) [
  | inl e ↦ rw e (IsKept-route account s (record h { search_query = s; recipient_name = s }) k)
  | inr e ↦ rw e k
]
IsKept-Move account n (proceeds {h}) k =
    elim (Bool-cases (is_empty h.recipient_name && is_empty h.recipient_routing)) [
      | inl e ↦ rw e k
      | inr e ↦ rw e (k.0, tt, k.2)
    ]
IsKept-Move account n returns k = (k.0, tt, k.2)
IsKept-Move account n (types_amount s) k = k
IsKept-Move account n (selects_rail rail) k = k
IsKept-Move account n (types_memo s) k = k
IsKept-Move account n repeats k = (k.0, tt, k.2)
IsKept-Move account n (learns {h} i outcome) k =
    IsKept-learn account i outcome (get_elem? h.lookups i) h k
IsKept-Move account n (pays {h} outcome) k = IsKept-pay account outcome h n k

-- However a user and the network move the hub: the account of the receiver is that of the payee
-- that the hub was opened with, and 109823481 without one, in the state and in every request
-- over a rail, whoever was picked or typed. Every amount that was sent is a number above zero.
-- And the last step is only shown with the answer about a payment.
pub Reach-IsKept :
    (accounts : List Account) (payee : Option Payee) (h : Hub)
    → Reach accounts payee h
    → IsKept (account_for payee) h
unfolding IsKept HasReceipt EverySound initial mounted account_for
Reach-IsKept accounts none _ start =
    IsKept-validate default_account (initial accounts none) (refl, tt, tt)
Reach-IsKept accounts (some p) _ start =
    IsKept-validate (account_for (some p)) (initial accounts (some p)) (refl, tt, tt)
Reach-IsKept accounts payee _ (next {h} r m) =
    IsKept-Move (account_for payee) (account_for-given payee) m (Reach-IsKept accounts payee h r)
