-- ===== src/Contacts.antt =====
-- frontend/app/client/contacts/page.tsx: the address book, with the handlers that add and
-- delete a contact; those that change one are in Edits. A deletion and a change go on behind
-- their call with the list of the rendering that they began in, so each is two functions: up to
-- the call, and behind it.
pub mod Overlap
pub mod Editing
pub mod Edits
use ikarin_bank.Prelude.{
  ℕ, zero, suc, Bool, true, false, not, ◌&&◌, ◌||◌, List, [], ◌∷◌, ◌++◌, Option, none, some, ◌==◌,
  if◌then◌else◌, map, filter, get_elem?,
}
use ikarin_bank.Text.{Text, codes, is_empty, text_eq, trim, includes, to_lower_case}
use ikarin_bank.Transfer.{text_or}
use ikarin_bank.Feed.{drop_at}

-- `contact_type` and `activeTab`
pub data ContactType : Type 0 where
  karin merchant bank : ContactType

-- `Contact`
pub record Contact : Type 0 where
  pub id : ℕ
  pub contact_name : Text
  pub contact_email : Option Text
  pub contact_type : ContactType
  pub merchant_id : Option Text
  pub subscriber_id : Option Text
  pub bank_name : Option Text
  pub routing_number : Option Text
  pub account_number : Option Text

-- What the page takes from a `Vendor`.
pub record Vendor : Type 0 where
  pub id : Text
  pub name : Text

-- `Bank`
pub record Bank : Type 0 where
  pub name : Text
  pub routing_number : Text

-- The body of the call that adds a contact.
pub record NewContact : Type 0 where
  pub contact_name : Text
  pub contact_type : ContactType
  pub contact_email : Option Text
  pub merchant_id : Option Text
  pub subscriber_id : Option Text
  pub bank_name : Option Text
  pub routing_number : Option Text
  pub account_number : Option Text

-- A deletion or a change that is under way: its contact, and the list of its rendering.
pub record Pending : Type 0 where
  pub id : ℕ
  pub seen : List Contact

-- The state, the deletions and the changes that are under way, the last one first, the bodies that were
-- sent and the alerts, the first one first.
pub record Book : Type 0 where
  pub contacts : List Contact
  pub loading : Bool
  pub action_loading : Bool
  pub active_tab : ContactType
  pub vendors : List Vendor
  pub banks : List Bank
  pub new_name : Text
  pub new_email : Text
  pub new_merchant_id : Text
  pub new_subscriber_id : Text
  pub new_bank_name : Text
  pub new_routing_number : Text
  pub new_account_number : Text
  pub error : Text
  pub success : Text
  pub search_query : Text
  pub editing_contact_id : Option ℕ
  pub edit_name : Text
  pub edit_email : Text
  pub deletions : List Pending
  pub saves : List Pending
  pub added : List NewContact
  pub alerts : List Text

-- The state of the first rendering.
unfoldable pub initial : Book
initial = record {
  contacts = [];
  loading = true;
  action_loading = false;
  active_tab = karin;
  vendors = [];
  banks = [];
  new_name = [];
  new_email = [];
  new_merchant_id = [];
  new_subscriber_id = [];
  new_bank_name = [];
  new_routing_number = [];
  new_account_number = [];
  error = [];
  success = [];
  search_query = [];
  editing_contact_id = none;
  edit_name = [];
  edit_email = [];
  deletions = [];
  saves = [];
  added = [];
  alerts = [];
}

-- How a call of the server ends: with an answer that is ok, with one that is not and its
-- detail, or with an error and its message.
pub data Outcome (A : Type 0) : Type 0 where
  ok : A → Outcome A
  not_ok : Option Text → Outcome A
  threw : Text → Outcome A

-- The end of `fetchContacts`.
unfoldable pub end_fetch_contacts : Outcome (List Contact) → Book → Book
end_fetch_contacts (ok answer) b = record b { contacts = answer; loading = false }
end_fetch_contacts (not_ok detail) b = record b { loading = false }
end_fetch_contacts (threw message) b = record b { loading = false }

abbrev pub with_vendors : Option (List Vendor) → Book → Book
with_vendors none b = b
with_vendors (some answer) b = record b { vendors = answer }

abbrev pub with_banks : Option (List Bank) → Book → Book
with_banks none b = b
with_banks (some answer) b = record b { banks = answer }

-- The end of `fetchMetadata`: `none` for an answer that is not ok and for an error.
unfoldable pub end_fetch_metadata : Option (List Vendor) → Option (List Bank) → Book → Book
end_fetch_metadata vendors banks b = with_banks banks (with_vendors vendors b)

-- `resetForm`
unfoldable pub reset_form : Book → Book
reset_form b = record b {
  new_name = [];
  new_email = [];
  new_merchant_id = [];
  new_subscriber_id = [];
  new_bank_name = [];
  new_routing_number = [];
  new_account_number = [];
}

-- `vendors.find(v => v.id === newMerchantId)`, and its name or "Merchant".
unfoldable pub vendor_name : Text → List Vendor → Text
vendor_name id [] = codes "Merchant"
vendor_name id (v ∷ vendors) = if text_eq v.id id then v.name else vendor_name id vendors

-- The body that `handleAddContact` sends.
unfoldable pub body_of : ContactType → Book → NewContact
body_of karin b = record {
  contact_name = b.new_name;
  contact_type = karin;
  contact_email = some b.new_email;
  merchant_id = none;
  subscriber_id = none;
  bank_name = none;
  routing_number = none;
  account_number = none;
}
body_of merchant b = record {
  contact_name =
      if is_empty (trim b.new_name) then vendor_name b.new_merchant_id b.vendors else b.new_name;
  contact_type = merchant;
  contact_email = none;
  merchant_id = some b.new_merchant_id;
  subscriber_id = some b.new_subscriber_id;
  bank_name = none;
  routing_number = none;
  account_number = none;
}
body_of bank b = record {
  contact_name = b.new_name;
  contact_type = bank;
  contact_email = none;
  merchant_id = none;
  subscriber_id = none;
  bank_name = some b.new_bank_name;
  routing_number = some b.new_routing_number;
  account_number = some b.new_account_number;
}

abbrev pub add_ended : Outcome Unit → Book → Book
add_ended (ok _) b = reset_form (record b { success = codes "Contact added successfully!" })
add_ended (not_ok detail) b = record b { error = text_or detail (codes "Failed to add contact") }
add_ended (threw message) b = record b { error = message }

-- `handleAddContact`; a success fetches the list again.
unfoldable pub handle_add_contact : Outcome Unit → Book → Book
handle_add_contact outcome b =
    let adding = record b {
      error = [];
      success = [];
      action_loading = true;
      added = b.added ++ body_of b.active_tab b ∷ [];
    } in
    record (add_ended outcome adding) { action_loading = false }

-- `handleDeleteContact` up to its call: `confirmed` is the answer to the question.
unfoldable pub begin_delete_contact : Bool → ℕ → Book → Book
begin_delete_contact confirmed id b =
    if not confirmed
    then b
    else record b { deletions = record { id = id; seen = b.contacts } ∷ b.deletions }

abbrev pub is_other : ℕ → Contact → Bool
is_other id c = not (c.id == id)

-- `handleDeleteContact` behind its call.
abbrev pub delete_ended : Outcome Unit → Pending → Book → Book
delete_ended (ok _) p b = record b { contacts = filter (is_other p.id) p.seen }
delete_ended (not_ok detail) p b = record b {
  alerts = b.alerts ++ text_or detail (codes "Failed to delete contact") ∷ [];
}
delete_ended (threw message) p b = record b { alerts = b.alerts ++ codes "An error occurred" ∷ [] }

-- The end of the deletion at a position.
unfoldable pub end_delete_contact : ℕ → Outcome Unit → Book → Book
end_delete_contact i outcome b = elim (get_elem? b.deletions i) [
  | none ↦ b
  | some p ↦ record (delete_ended outcome p b) { deletions = drop_at i b.deletions }
]

-- `field && field.toLowerCase().includes(…)`
abbrev pub field_includes : Option Text → Text → Bool
field_includes none query = false
field_includes (some []) query = false
field_includes (some (c ∷ s)) query = includes (to_lower_case (c ∷ s)) query

abbrev pub matches : Text → Contact → Bool
matches query c =
    includes (to_lower_case c.contact_name) query
    || field_includes c.contact_email query
    || field_includes c.merchant_id query
    || field_includes c.bank_name query

-- `filteredContacts`
unfoldable pub filtered_contacts : Book → List Contact
filtered_contacts b = filter (matches (to_lower_case b.search_query)) b.contacts
