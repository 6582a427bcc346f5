-- ===== src/Contacts/Editing.antt =====
-- What the change of a contact and the form of a new one do.
use ikarin_bank.Prelude.{
  ℕ, ◌≡◌, ◌≢◌, refl, false, List, [], ◌∷◌, Option, none, some, ◌==◌, if◌then◌else◌, Bool-cases, inl,
  inr, arith,
}
use ikarin_bank.Text.{Text, is_empty, trim, trim_start, trim_end, is_space, text_eq}
use ikarin_bank.Contacts.{Contact, Vendor, Book, ok, body_of, merchant, vendor_name}
use ikarin_bank.Contacts.Edits.{begin_save_edit, end_save_edit, replace, handle_start_edit}

-- The first contact of an id.
unfoldable pub lookup : ℕ → List Contact → Option Contact
lookup i [] = none
lookup i (c ∷ cs) = if c.id == i then some c else lookup i cs

abbrev pub replaced : Option Contact → Contact → Option Contact
replaced none answer = none
replaced (some c) answer = some answer

lookup-replace_same :
    (i : ℕ) (answer : Contact) (cs : List Contact)
    → answer.id ≡ i
    → lookup i (replace i answer cs) ≡ replaced (lookup i cs) answer
unfolding lookup replace
lookup-replace_same i answer [] h = refl
lookup-replace_same i answer (c ∷ cs) h = elim (Bool-cases (c.id == i)) [
  | inl e ↦ rw e (ground arith)
  | inr e ↦ rw (e, e) (lookup-replace_same i answer cs h)
]

lookup-replace_other :
    (i j : ℕ) (answer : Contact) (cs : List Contact)
    → answer.id ≡ i
    → i ≢ j
    → lookup j (replace i answer cs) ≡ lookup j cs
unfolding lookup replace
lookup-replace_other i j answer [] h n = refl
lookup-replace_other i j answer (c ∷ cs) h n =
    ground (arith, lookup-replace_other i j answer cs h n)

-- A contact is edited and saved under a name that is not blank, and the server answers with a
-- contact of the same id. Then that answer stands in the place of the first contact of the id,
-- if there was one; every other id has the contact that it had; and nothing is edited or
-- loading any more.
pub save_edit_lem :
    (c answer : Contact) (b : Book)
    → is_empty (trim c.contact_name) ≡ false
    → answer.id ≡ c.id
    → let b' = end_save_edit 0 (ok answer) (begin_save_edit c.id (handle_start_edit c b)) in
      (lookup c.id b'.contacts ≡ replaced (lookup c.id b.contacts) answer)
      × ((j : ℕ) → c.id ≢ j → lookup j b'.contacts ≡ lookup j b.contacts)
      × (b'.editing_contact_id ≡ none)
      × (b'.action_loading ≡ false)
unfolding begin_save_edit end_save_edit handle_start_edit
save_edit_lem c answer b h e = rw h (
  lookup-replace_same c.id answer b.contacts e,
  (λ j n. lookup-replace_other c.id j answer b.contacts e n),
  refl,
  refl,
)

-- What a contact is called where every vendor has a name that is not blank.
pub EveryNamed : List Vendor → Type 0
EveryNamed [] = Unit
EveryNamed (v ∷ vs) = (is_empty (trim v.name) ≡ false) × EveryNamed vs

vendor_name-given :
    (id : Text) (vs : List Vendor) → EveryNamed vs → is_empty (trim (vendor_name id vs)) ≡ false
unfolding EveryNamed vendor_name trim trim_start trim_end is_space
vendor_name-given id [] h = refl
vendor_name-given id (v ∷ vs) (g, h) = elim (Bool-cases (text_eq v.id id)) [
  | inl e ↦ rw e g
  | inr e ↦ rw e (vendor_name-given id vs h)
]

-- Where every vendor has a name that is not blank, a contact of the tab for merchants is sent
-- with a name that is not blank, whatever the form has.
pub body_of-merchant :
    (b : Book) → EveryNamed b.vendors → is_empty (trim (body_of merchant b).contact_name) ≡ false
unfolding body_of
body_of-merchant b h = elim (Bool-cases (is_empty (trim b.new_name))) [
  | inl e ↦ rw e (vendor_name-given b.new_merchant_id b.vendors h)
  | inr e ↦ rw e e
]
