-- ===== src/Wallet/Sync.antt =====
-- The list of cards and the map of their states agree.
use ikarin_bank.Prelude.{
  ◌≡◌, refl, sym, ◌∙◌, Bool, true, false, List, [], ◌∷◌, ◌++◌, Option, none, some, map, filter,
  if◌then◌else◌, Bool-cases, inl, inr, arith,
}
use ikarin_bank.Text.{Text, text_eq}
use ikarin_bank.Text.Laws.{text_eq→eq, text_eq_refl, text_eq_sym, text_eq_common}
use ikarin_bank.Card.{CardDetails, Moment, generate_virtual_card}
use ikarin_bank.Wallet.Deletion.{lacks_id, deletion_cases}
use ikarin_bank.Wallet.{
  CardStates, state_at, set_state, delete_state, Wallet, initial_cards, initial, fill_states,
  current_card, CardUpdate, freeze, daily_limit, monthly_limit, online_payments, contactless,
  atm_withdrawals, apply_update, replace_card, update_current_card, handle_generate_virtual_card,
  has_other_id, delete_card, handle_delete_virtual_card, select_card, cancel_delete,
}

-- The map has each card of the list under its id.
pub AreAt : List CardDetails → CardStates → Type 0
AreAt [] states = Unit
AreAt (c ∷ cs) states = (state_at c.id states ≡ some c) × AreAt cs states

unfoldable pub AreDistinct : List CardDetails → Type 0
AreDistinct [] = Unit
AreDistinct (c ∷ cs) = (lacks_id c.id cs ≡ true) × AreDistinct cs

-- What a user can do; a new card has a new id.
pub data Step : Wallet → Wallet → Type 0 where
  updated :
      {w : Wallet} (u : CardUpdate) (can_save : Bool) → Step w (update_current_card u can_save w)
  generated :
      {w : Wallet} (moment : Moment) (user_name : Text) (can_save : Bool)
      → lacks_id (generate_virtual_card moment user_name).id w.cards_list ≡ true
      → Step w (handle_generate_virtual_card moment user_name can_save w)
  deleted : {w : Wallet} (can_save : Bool) → Step w (handle_delete_virtual_card can_save w)
  selected : {w : Wallet} (id : Text) → Step w (select_card id w)
  cancelled : {w : Wallet} → Step w (cancel_delete w)

pub data Reach : Wallet → Type 0 where
  start :
      (prop_cards saved : Option (List CardDetails)) (user_name : Text)
      → AreDistinct (initial_cards prop_cards saved user_name)
      → Reach (initial prop_cards saved user_name)
  next : {w w' : Wallet} → Reach w → Step w w' → Reach w'

state_at-set_state :
    (id k : Text) (c : CardDetails) (states : CardStates)
    → state_at id (set_state k c states) ≡ (if text_eq k id then some c else state_at id states)
unfolding state_at set_state
state_at-set_state id k c [] = refl
state_at-set_state id k c ((j, d) ∷ states) =
    let rest = state_at-set_state id k c states in
    elim (Bool-cases (text_eq j k)) [
      | inl same ↦ rw same (rw (text_eq→eq j k same) (ground arith))
      | inr other ↦ elim (Bool-cases (text_eq j id)) [
        | inl here ↦ elim (Bool-cases (text_eq k id)) [
          | inl there ↦ let same = text_eq_common j k id here there in ground arith
          | inr away ↦ rw other (rw here (rw away refl))
        ]
        | inr away ↦ rw other (rw away rest)
      ]
    ]

pub state_at-delete_state :
    (id k : Text) (states : CardStates)
    → state_at id (delete_state k states) ≡ (if text_eq k id then none else state_at id states)
unfolding state_at delete_state
state_at-delete_state id k [] = ground arith
state_at-delete_state id k ((j, d) ∷ states) =
    let rest = state_at-delete_state id k states in
    elim (Bool-cases (text_eq j k)) [
      | inl same ↦ rw same (rw (text_eq→eq j k same) (ground arith))
      | inr other ↦ elim (Bool-cases (text_eq j id)) [
        | inl here ↦ elim (Bool-cases (text_eq k id)) [
          | inl there ↦ let same = text_eq_common j k id here there in ground arith
          | inr away ↦ rw other (rw here (rw away refl))
        ]
        | inr away ↦ rw other (rw away rest)
      ]
    ]

AreAt-update :
    (id : Text) (u : CardDetails) (states : CardStates)
    → ((c : CardDetails) → state_at id states ≡ some c → u.id ≡ c.id)
    → (cs : List CardDetails) → AreAt cs states
    → AreAt (map (replace_card id u) cs) (set_state id u states)
unfolding AreAt
AreAt-update id u states h [] s = tt
AreAt-update id u states h (c ∷ cs) s =
    let rest = AreAt-update id u states h cs s.1 in
    elim (Bool-cases (text_eq c.id id)) [
      | inl same ↦
          let e : u.id ≡ id =
            h c (rw (sym (text_eq→eq c.id id same)) s.0) ∙ text_eq→eq c.id id same in
          rw same
            (rw (state_at-set_state u.id id u states) (rw e (rw (text_eq_refl id) refl)), rest)
      | inr other ↦
          rw other (
            rw (state_at-set_state c.id id u states) (rw (text_eq_sym id c.id) (rw other s.0)),
            rest,
          )
    ]

AreAt-set_state :
    (id : Text) (u : CardDetails) (states : CardStates) (cs : List CardDetails)
    → lacks_id id cs ≡ true
    → AreAt cs states
    → AreAt cs (set_state id u states)
unfolding AreAt lacks_id
AreAt-set_state id u states [] h s = tt
AreAt-set_state id u states (c ∷ cs) h s =
    let other : text_eq c.id id ≡ false = ground arith in
    (
      rw (state_at-set_state c.id id u states) (rw (text_eq_sym id c.id) (rw other s.0)),
      AreAt-set_state id u states cs (ground arith) s.1,
    )

AreAt-append :
    (cs : List CardDetails) (c : CardDetails) (states : CardStates)
    → AreAt cs states
    → state_at c.id states ≡ some c
    → AreAt (cs ++ c ∷ []) states
unfolding AreAt
AreAt-append [] c states s h = (h, tt)
AreAt-append (d ∷ cs) c states s h = (s.0, AreAt-append cs c states s.1 h)

AreAt-delete_state :
    (id : Text) (states : CardStates) (cs : List CardDetails)
    → AreAt cs states
    → AreAt (filter (has_other_id id) cs) (delete_state id states)
unfolding AreAt filter
AreAt-delete_state id states [] s = tt
AreAt-delete_state id states (c ∷ cs) s =
    let rest = AreAt-delete_state id states cs s.1 in
    elim (Bool-cases (text_eq c.id id)) [
      | inl same ↦ rw same rest
      | inr other ↦ rw other (
        rw (state_at-delete_state c.id id states) (rw (text_eq_sym id c.id) (rw other s.0)),
        rest,
      )
    ]

state_at-fill_states :
    (id : Text) (cs : List CardDetails) (states : CardStates)
    → lacks_id id cs ≡ true
    → state_at id (fill_states cs states) ≡ state_at id states
unfolding fill_states lacks_id
state_at-fill_states id [] states h = refl
state_at-fill_states id (c ∷ cs) states h =
    let other : text_eq c.id id ≡ false = ground arith in
    rw (state_at-fill_states id cs (set_state c.id c states) (ground arith))
      (rw (state_at-set_state id c.id c states) (rw other refl))

AreAt-fill_states :
    (cs : List CardDetails) (states : CardStates)
    → AreDistinct cs
    → AreAt cs (fill_states cs states)
unfolding AreAt AreDistinct fill_states
AreAt-fill_states [] states d = tt
AreAt-fill_states (c ∷ cs) states d = (
  rw (state_at-fill_states c.id cs (set_state c.id c states) d.0)
      (rw (state_at-set_state c.id c.id c states) (rw (text_eq_refl c.id) refl)),
  AreAt-fill_states cs (set_state c.id c states) d.1,
)

id-apply_update : (u : CardUpdate) (c : CardDetails) → (apply_update u c).id ≡ c.id
id-apply_update (freeze b) c = refl
id-apply_update (daily_limit n) c = refl
id-apply_update (monthly_limit n) c = refl
id-apply_update (online_payments b) c = refl
id-apply_update (contactless b) c = refl
id-apply_update (atm_withdrawals b) c = refl

AreAt-handle_delete_virtual_card :
    (can_save : Bool) (w : Wallet)
    → AreAt w.cards_list w.card_states
    → AreAt
        (handle_delete_virtual_card can_save w).cards_list
        (handle_delete_virtual_card can_save w).card_states
unfolding delete_card
AreAt-handle_delete_virtual_card can_save w s = elim (deletion_cases can_save w) [
  | inl e ↦ rw e s
  | inr (inl e) ↦ rw e s
  | inr (inr (v, c, e)) ↦ rw e (AreAt-delete_state (current_card w).id w.card_states w.cards_list s)
]

AreAt-Step :
    {w w' : Wallet}
    → Step w w'
    → AreAt w.cards_list w.card_states
    → AreAt w'.cards_list w'.card_states
unfolding update_current_card handle_generate_virtual_card select_card cancel_delete current_card
AreAt-Step (updated {w} u can_save) s =
    AreAt-update w.selected_card_id (apply_update u (current_card w)) w.card_states
      (λ c e. id-apply_update u (current_card w) ∙ rw e refl) w.cards_list s
AreAt-Step (generated {w} moment user_name can_save fresh) s =
    let card = generate_virtual_card moment user_name in
    AreAt-append w.cards_list card (set_state card.id card w.card_states)
      (AreAt-set_state card.id card w.card_states w.cards_list fresh s)
      (rw (state_at-set_state card.id card.id card w.card_states) (rw (text_eq_refl card.id) refl))
AreAt-Step (deleted {w} can_save) s = AreAt-handle_delete_virtual_card can_save w s
AreAt-Step (selected id) s = s
AreAt-Step cancelled s = s

-- From a first list of cards with different ids, in every state that a user reaches by updates,
-- new cards with new ids, deletions and selections, the map of card states holds each card of
-- the list as it stands there.
pub Reach-AreAt : {w : Wallet} → Reach w → AreAt w.cards_list w.card_states
unfolding initial
Reach-AreAt (start prop_cards saved user_name d) =
    AreAt-fill_states (initial_cards prop_cards saved user_name) [] d
Reach-AreAt (next r s) = AreAt-Step s (Reach-AreAt r)
