-- ===== src/Wallet/Deletion.antt =====
-- The deletion of a virtual card, in two presses.
use ikarin_bank.Prelude.{
  ◌≡◌, refl, ◌⊎◌, inl, inr, Bool, true, false, ◌&&◌, List, [], ◌∷◌, none, some, filter, Bool-cases,
  arith,
}
use ikarin_bank.Text.{Text}
use ikarin_bank.Text.Laws.{text_eq_refl}
use ikarin_bank.Card.{CardDetails}
use ikarin_bank.Wallet.{
  Wallet, current_card, has_other_id, delete_card, is_virtual, is_confirmed,
  handle_delete_virtual_card,
}

-- No card of the list has the id.
unfoldable pub lacks_id : Text → List CardDetails → Bool
lacks_id id [] = true
lacks_id id (c ∷ cs) = has_other_id id c && lacks_id id cs

-- The three outcomes of a press.
pub deletion_cases :
    (can_save : Bool) (w : Wallet)
    → (handle_delete_virtual_card can_save w ≡ w)
      ⊎ ((handle_delete_virtual_card can_save w
            ≡ record w { confirm_delete_card_id = some (current_card w).id })
          ⊎ ((is_virtual (current_card w) ≡ true)
              × (is_confirmed w.confirm_delete_card_id (current_card w).id ≡ true)
              × (handle_delete_virtual_card can_save w ≡ delete_card (current_card w) can_save w)))
unfolding handle_delete_virtual_card
deletion_cases can_save w = elim (Bool-cases (is_virtual (current_card w))) [
  | inr e ↦ inl (rw e refl)
  | inl e ↦ elim (Bool-cases (is_confirmed w.confirm_delete_card_id (current_card w).id)) [
    | inr f ↦ inr (inl (rw e (rw f refl)))
    | inl f ↦ inr (inr (e, f, rw e (rw f refl)))
  ]
]

lacks_id-filter :
    (id : Text) (cs : List CardDetails) → lacks_id id (filter (has_other_id id) cs) ≡ true
unfolding lacks_id filter
lacks_id-filter id [] = refl
lacks_id-filter id (c ∷ cs) = let rest = lacks_id-filter id cs in grind arith

-- A press of the delete button takes no card away unless the shown card is virtual and its own deletion
-- was asked for before. The press that deletes leaves no card with the id and forgets the request. Any
-- other press keeps the cards, their states, the saved list and the selection.
pub handle_delete_virtual_card-confirmed :
    (can_save : Bool) (w : Wallet)
    → let card = current_card w in
      let w' = handle_delete_virtual_card can_save w in
      ((w'.cards_list ≡ w.cards_list)
        × (w'.card_states ≡ w.card_states)
        × (w'.saved ≡ w.saved)
        × (w'.selected_card_id ≡ w.selected_card_id))
      ⊎ ((is_virtual card ≡ true)
          × (is_confirmed w.confirm_delete_card_id card.id ≡ true)
          × (lacks_id card.id w'.cards_list ≡ true)
          × (w'.confirm_delete_card_id ≡ none))
unfolding delete_card
handle_delete_virtual_card-confirmed can_save w = elim (deletion_cases can_save w) [
  | inl e ↦ rw e (inl (refl, refl, refl, refl))
  | inr (inl e) ↦ rw e (inl (refl, refl, refl, refl))
  | inr (inr (v, c, e)) ↦ rw e (inr (v, c, lacks_id-filter (current_card w).id w.cards_list, refl))
]

-- Two presses on a virtual card that is shown delete it, with a request pending for another
-- card or none, and where the storage can be written the list without the card is the saved
-- one.
handle_delete_virtual_card-twice :
    (w : Wallet)
    → is_virtual (current_card w) ≡ true
    → is_confirmed w.confirm_delete_card_id (current_card w).id ≡ false
    → let w' = handle_delete_virtual_card true (handle_delete_virtual_card true w) in
      (lacks_id (current_card w).id w'.cards_list ≡ true) × (w'.saved ≡ some w'.cards_list)
unfolding handle_delete_virtual_card delete_card current_card
handle_delete_virtual_card-twice w v c = rw v (
    rw c (
      rw v (
        rw (text_eq_refl (current_card w).id)
          (lacks_id-filter (current_card w).id w.cards_list, refl))))
