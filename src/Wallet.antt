-- ===== src/Wallet.antt =====
-- frontend/components/neobank/CardSecurityHub.tsx: the state of the card manager and its
-- handlers. A handler runs on the state of the last rendering. The rendering is left out, and
-- so are the timers that clear the notification.
pub mod Sync
pub mod Deletion
use ikarin_bank.Prelude.{
  ℕ, ◌-◌, Bool, true, false, not, List, [], ◌∷◌, ◌++◌, Option, none, some, map, filter, length,
  drop, if◌then◌else◌,
}
use ikarin_bank.Text.{Text, codes, text_eq}
use ikarin_bank.Card.{CardDetails, CardType, debit, credit, virtual, Moment, generate_virtual_card}

-- `DEFAULT_CARDS`
abbrev debit_card : CardDetails
debit_card = record {
  id = codes "card-debit-1";
  type_of = none;
  card_type = some debit;
  name = none;
  card_holder = some (codes "JOHN DOE");
  number = none;
  card_number = some (codes "5542889012234567");
  expiry = codes "12/28";
  cvv = codes "739";
  is_frozen = false;
  online_enabled = none;
  online_payments_enabled = some true;
  contactless_enabled = some true;
  international_enabled = none;
  atm_enabled = none;
  atm_withdrawals_enabled = some true;
  daily_limit_cents = none;
  daily_spending_limit_cents = some 500000;
  monthly_limit_cents = none;
  monthly_spending_limit_cents = some 2000000;
  current_daily_spend_cents = none;
}

abbrev credit_card : CardDetails
credit_card = record debit_card {
  id = codes "card-credit-2";
  card_type = some credit;
  card_number = some (codes "4532148803436467");
  expiry = codes "08/29";
  cvv = codes "456";
  atm_withdrawals_enabled = some false;
  daily_spending_limit_cents = some 1500000;
  monthly_spending_limit_cents = some 5000000;
}

abbrev pub default_cards : List CardDetails
default_cards = debit_card ∷ credit_card ∷ []

-- `cardStates`, in the order of its keys.
abbrev pub CardStates : Type 0
CardStates = List (Text × CardDetails)

-- `map[id]`
unfoldable pub state_at : Text → CardStates → Option CardDetails
state_at id [] = none
state_at id ((k, c) ∷ states) =
    let rest = state_at id states in if text_eq k id then some c else rest

-- `map[id] = card`
unfoldable pub set_state : Text → CardDetails → CardStates → CardStates
set_state id card [] = (id, card) ∷ []
set_state id card ((k, c) ∷ states) =
    let rest = set_state id card states in
    if text_eq k id then (k, card) ∷ states else (k, c) ∷ rest

-- `delete map[id]`
unfoldable pub delete_state : Text → CardStates → CardStates
delete_state id [] = []
delete_state id ((k, c) ∷ states) =
    let rest = delete_state id states in if text_eq k id then rest else (k, c) ∷ rest

-- What the notifications say, with the last digits of the card they name.
pub data Notification : Type 0 where
  preferences_updated : Notification
  card_created : Text → Notification
  card_deleted : Text → Notification

-- The state of the component, with the list that `localStorage` holds for the user and the cards that
-- `onGenerateVirtualCard` was called with, the last one first.
pub record Wallet : Type 0 where
  pub cards_list : List CardDetails
  pub selected_card_id : Text
  pub card_states : CardStates
  pub notification : Option Notification
  pub confirm_delete_card_id : Option Text
  pub saved : Option (List CardDetails)
  pub announced : List CardDetails

-- `list && list.length > 0 ? list : ...`
abbrev pub nonempty_or : Option (List CardDetails) → List CardDetails → List CardDetails
nonempty_or none d = d
nonempty_or (some []) d = d
nonempty_or (some (c ∷ cs)) d = c ∷ cs

abbrev pub held_by : Text → CardDetails → CardDetails
held_by user_name c = record c { card_holder = some user_name }

-- The first list: that of the properties, the saved one, or the default.
unfoldable pub initial_cards :
    Option (List CardDetails) → Option (List CardDetails) → Text → List CardDetails
initial_cards prop_cards saved user_name =
    nonempty_or prop_cards (nonempty_or saved (map (held_by user_name) default_cards))

-- The id of the first card of a list, or the default.
abbrev pub first_id : List CardDetails → Text
first_id [] = codes "card-debit-1"
first_id (c ∷ cs) = elim c.id [ [] ↦ codes "card-debit-1" | u ∷ s ↦ u ∷ s ]

unfoldable pub fill_states : List CardDetails → CardStates → CardStates
fill_states [] states = states
fill_states (c ∷ cs) states = fill_states cs (set_state c.id c states)

-- The state of the first rendering; `saved` is what `localStorage` holds, read as cards.
unfoldable pub initial : Option (List CardDetails) → Option (List CardDetails) → Text → Wallet
initial prop_cards saved user_name =
    let cards = initial_cards prop_cards saved user_name in
    record {
      cards_list = cards;
      selected_card_id = first_id cards;
      card_states = fill_states cards [];
      notification = none;
      confirm_delete_card_id = none;
      saved = saved;
      announced = [];
    }

unfoldable pub add_missing : List CardDetails → CardStates → CardStates
add_missing [] states = states
add_missing (c ∷ cs) states = elim (state_at c.id states) [
  | none ↦ add_missing cs (set_state c.id c states)
  | some old ↦ add_missing cs states
]

-- The effect that follows the properties.
unfoldable pub sync : Option (List CardDetails) → Wallet → Wallet
sync none w = w
sync (some []) w = w
sync (some (c ∷ cs)) w = record w {
  cards_list = c ∷ cs;
  card_states = add_missing (c ∷ cs) w.card_states;
}

abbrev pub card_or : Option CardDetails → List CardDetails → CardDetails
card_or (some c) cs = c
card_or none (c ∷ cs) = c
card_or none [] = debit_card

-- `currentCard`
unfoldable pub current_card : Wallet → CardDetails
current_card w = card_or (state_at w.selected_card_id w.card_states) w.cards_list

-- `localStorage.setItem`, which may throw; then nothing is written.
abbrev pub save : Bool → List CardDetails → Option (List CardDetails) → Option (List CardDetails)
save can_save cards saved = if can_save then some cards else saved

-- The updates of the page's controls.
pub data CardUpdate : Type 0 where
  freeze : Bool → CardUpdate
  daily_limit : Option ℕ → CardUpdate
  monthly_limit : Option ℕ → CardUpdate
  online_payments : Bool → CardUpdate
  contactless : Bool → CardUpdate
  atm_withdrawals : Bool → CardUpdate

-- `{ ...card, ...updates }`
abbrev pub apply_update : CardUpdate → CardDetails → CardDetails
apply_update (freeze b) c = record c { is_frozen = b }
apply_update (daily_limit n) c = record c { daily_spending_limit_cents = n }
apply_update (monthly_limit n) c = record c { monthly_spending_limit_cents = n }
apply_update (online_payments b) c = record c { online_payments_enabled = some b }
apply_update (contactless b) c = record c { contactless_enabled = some b }
apply_update (atm_withdrawals b) c = record c { atm_withdrawals_enabled = some b }

abbrev pub replace_card : Text → CardDetails → CardDetails → CardDetails
replace_card id updated c = if text_eq c.id id then updated else c

-- `updateCurrentCard`
unfoldable pub update_current_card : CardUpdate → Bool → Wallet → Wallet
update_current_card updates can_save w =
    let updated_card = apply_update updates (current_card w) in
    let updated_list = map (replace_card w.selected_card_id updated_card) w.cards_list in
    record w {
      card_states = set_state w.selected_card_id updated_card w.card_states;
      cards_list = updated_list;
      saved = save can_save updated_list w.saved;
      notification = some preferences_updated;
    }

-- `(cardNumber || '').slice(-4)`
abbrev pub last_4 : CardDetails → Text
last_4 c = elim c.card_number [ none ↦ [] | some s ↦ drop (length s - 4) s ]

-- `handleGenerateVirtualCard`
unfoldable pub handle_generate_virtual_card : Moment → Text → Bool → Wallet → Wallet
handle_generate_virtual_card moment user_name can_save w =
    let new_card = generate_virtual_card moment user_name in
    let updated_list = w.cards_list ++ new_card ∷ [] in
    record w {
      cards_list = updated_list;
      card_states = set_state new_card.id new_card w.card_states;
      selected_card_id = new_card.id;
      confirm_delete_card_id = none;
      saved = save can_save updated_list w.saved;
      notification = some (card_created (last_4 new_card));
      announced = new_card ∷ w.announced;
    }

abbrev pub is_virtual : CardDetails → Bool
is_virtual c = elim c.card_type [ some virtual ↦ true | _ ↦ false ]

abbrev pub is_confirmed : Option Text → Text → Bool
is_confirmed none id = false
is_confirmed (some confirmed) id = text_eq confirmed id

abbrev pub has_other_id : Text → CardDetails → Bool
has_other_id id c = not (text_eq c.id id)

-- What `handleDeleteVirtualCard` does once it is confirmed.
unfoldable pub delete_card : CardDetails → Bool → Wallet → Wallet
delete_card card can_save w =
    let updated_list = filter (has_other_id card.id) w.cards_list in
    record w {
      cards_list = updated_list;
      card_states = delete_state card.id w.card_states;
      selected_card_id = first_id updated_list;
      confirm_delete_card_id = none;
      saved = save can_save updated_list w.saved;
      notification = some (card_deleted (last_4 card));
    }

-- `handleDeleteVirtualCard`
unfoldable pub handle_delete_virtual_card : Bool → Wallet → Wallet
handle_delete_virtual_card can_save w =
    let card = current_card w in
    if not (is_virtual card)
    then w
    else if not (is_confirmed w.confirm_delete_card_id card.id)
    then record w { confirm_delete_card_id = some card.id }
    else delete_card card can_save w

-- A click on a card of the list.
unfoldable pub select_card : Text → Wallet → Wallet
select_card id w = record w { selected_card_id = id; confirm_delete_card_id = none }

-- The button that cancels a deletion.
unfoldable pub cancel_delete : Wallet → Wallet
cancel_delete w = record w { confirm_delete_card_id = none }
