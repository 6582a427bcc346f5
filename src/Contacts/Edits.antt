-- ===== src/Contacts/Edits.antt =====
-- frontend/app/client/contacts/page.tsx: the changes of a contact, from the form to the end of
-- their call.
use ikarin_bank.Prelude.{ℕ, true, false, List, [], ◌∷◌, none, some, ◌==◌, if◌then◌else◌, get_elem?}
use ikarin_bank.Text.{codes, is_empty, trim}
use ikarin_bank.Transfer.{text_or}
use ikarin_bank.Feed.{drop_at}
use ikarin_bank.Contacts.{Contact, Pending, Book, Outcome, ok, not_ok, threw}

-- `handleStartEdit` and `handleCancelEdit`
unfoldable pub handle_start_edit : Contact → Book → Book
handle_start_edit c b = record b {
  editing_contact_id = some c.id;
  edit_name = c.contact_name;
  edit_email = text_or c.contact_email [];
  error = [];
}

unfoldable pub handle_cancel_edit : Book → Book
handle_cancel_edit b = record b { editing_contact_id = none; edit_name = []; edit_email = [] }

-- `handleSaveEdit` up to its call.
unfoldable pub begin_save_edit : ℕ → Book → Book
begin_save_edit id b = if is_empty (trim b.edit_name) then b else record b {
  action_loading = true;
  error = [];
  saves = record { id = id; seen = b.contacts } ∷ b.saves;
}

-- `contacts.map((c) => (c.id === id ? data : c))`
unfoldable pub replace : ℕ → Contact → List Contact → List Contact
replace id answer [] = []
replace id answer (c ∷ cs) = (if c.id == id then answer else c) ∷ replace id answer cs

-- `handleSaveEdit` behind its call.
abbrev pub save_ended : Outcome Contact → Pending → Book → Book
save_ended (ok answer) p b = record b {
  contacts = replace p.id answer p.seen;
  editing_contact_id = none;
  success = codes "Contact updated successfully!";
}
save_ended (not_ok detail) p b = record b {
  error = text_or detail (codes "Failed to update contact");
}
save_ended (threw message) p b = record b { error = message }

-- The end of the change at a position.
unfoldable pub end_save_edit : ℕ → Outcome Contact → Book → Book
end_save_edit i outcome b = elim (get_elem? b.saves i) [
  | none ↦ b
  | some p ↦ record (save_ended outcome p b) { action_loading = false; saves = drop_at i b.saves }
]
