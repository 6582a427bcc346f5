-- ===== src/Tests/Wallets.antt =====
-- The card manager on concrete cards.
use ikarin_bank.Prelude.{◌%◌, ◌≡◌, ◌⊎◌, refl, true, none}
use ikarin_bank.Text.{codes, text_eq}
use ikarin_bank.Card.{Moment, generate_virtual_card}
use ikarin_bank.Wallet.{
  Wallet, initial, initial_cards, freeze, current_card, is_virtual, is_confirmed,
  update_current_card, handle_generate_virtual_card, handle_delete_virtual_card,
}
use ikarin_bank.Wallet.Deletion.{lacks_id, handle_delete_virtual_card-confirmed}
use ikarin_bank.Wallet.Sync.{
  AreAt, AreDistinct, Reach, start, next, updated, generated, Reach-AreAt,
}

abbrev moment : Moment
moment = record {
  now = 5;
  month = 0;
  year = 2026;
  id_suffix = codes "k3x9";
  cvv_number = 123;
  draw = λ i. i % 10;
}

abbrev fresh : Wallet
fresh = initial none none (codes "ADA LOVELACE")

-- A new card, which is shown.
abbrev with_virtual : Wallet
with_virtual = handle_generate_virtual_card moment (codes "Ada") true fresh

abbrev frozen : Wallet
frozen = update_current_card (freeze true) true with_virtual

frozen-Reach : Reach frozen
unfolding initial initial_cards generate_virtual_card AreDistinct lacks_id text_eq
frozen-Reach =
    next
      (next (start none none (codes "ADA LOVELACE") (refl, (refl, tt)))
        (generated moment (codes "Ada") true refl))
      (updated (freeze true) true)

Reach-AreAt_example : AreAt frozen.cards_list frozen.card_states
Reach-AreAt_example = Reach-AreAt frozen-Reach

handle_delete_virtual_card-confirmed_example :
    let card = current_card with_virtual in
    let w' = handle_delete_virtual_card true with_virtual in
    ((w'.cards_list ≡ with_virtual.cards_list)
      × (w'.card_states ≡ with_virtual.card_states)
      × (w'.saved ≡ with_virtual.saved)
      × (w'.selected_card_id ≡ with_virtual.selected_card_id))
    ⊎ ((is_virtual card ≡ true)
        × (is_confirmed with_virtual.confirm_delete_card_id card.id ≡ true)
        × (lacks_id card.id w'.cards_list ≡ true)
        × (w'.confirm_delete_card_id ≡ none))
handle_delete_virtual_card-confirmed_example =
    handle_delete_virtual_card-confirmed true with_virtual
