-- ===== src/Tests/Admin.antt =====
-- The page of the administrator, the address book and the profile.
use ikarin_bank.Prelude.{ℕ, ◌≡◌, ◌≢◌, ◌≤◌, refl, true, false, [], ◌∷◌, none, some, arith, length}
use ikarin_bank.Text.{Text, codes, text_eq}
use ikarin_bank.Users
use ikarin_bank.Users.{
  User, Users, Outcome, ok, initial, choose_user, set_confirm_email, handle_delete_user,
  total_pages, paginated_users, page_size,
}
use ikarin_bank.Users.Deletion.{
  start, next, chooses, types_confirmation, deletes, EveryConfirmed, Reach-EveryConfirmed,
}
use ikarin_bank.Users.Pages.{first_pages, first_pages-total_pages}
use ikarin_bank.Contacts
use ikarin_bank.Contacts.{Contact, Book, karin}
use ikarin_bank.Contacts.Overlap.{one_by_one, overlapping, has, overlapping_lem}
use ikarin_bank.Query
use ikarin_bank.Query.Offered
use ikarin_bank.Query.Offered.{IsServed, Reach-IsServed}
use ikarin_bank.Profile
use ikarin_bank.Profile.{Profile, set_passwords, handle_password_submit, handle_password_update}
use ikarin_bank.Profile.Password
use ikarin_bank.Profile.Password.{IsSafe, Reach-IsSafe}

abbrev ada : User
ada = record { id = 3; first_name = some (codes "Ada"); last_name = none; email = codes "ada@b.c" }

abbrev confirmed : Users
confirmed = set_confirm_email (codes "ada@b.c") (choose_user ada initial)

Reach-EveryConfirmed_example : EveryConfirmed (handle_delete_user (ok tt) confirmed).deletions
Reach-EveryConfirmed_example = Reach-EveryConfirmed (handle_delete_user (ok tt) confirmed) (
    next (next (next start (chooses ada)) (types_confirmation (codes "ada@b.c"))) (deletes (ok tt)))

-- The deletion is called.
deletion_test : (handle_delete_user (ok tt) confirmed).deletions ≡ (ada, codes "ada@b.c") ∷ []
unfolding handle_delete_user Users.delete_found set_confirm_email choose_user initial text_eq
    Users.begin_fetch_users
deletion_test = refl

first_pages-total_pages_example :
    (first_pages (total_pages (ada ∷ [])) (ada ∷ []) ≡ ada ∷ [])
    × ((k : ℕ) → length (paginated_users k (ada ∷ [])) ≤ page_size)
first_pages-total_pages_example = first_pages-total_pages (ada ∷ [])

abbrev contact : ℕ → Text → Contact
contact id name = record {
  id = id;
  contact_name = name;
  contact_email = none;
  contact_type = karin;
  merchant_id = none;
  subscriber_id = none;
  bank_name = none;
  routing_number = none;
  account_number = none;
}

abbrev book : Book
book = record Contacts.initial { contacts = contact 1 (codes "Ada") ∷ contact 2 (codes "Ben") ∷ [] }

abbrev one : ℕ
one = 1

one_not_two : one ≢ 2
one_not_two h = omega arith

overlapping_lem_example :
    (has 1 (one_by_one 1 2 book).contacts ≡ false)
    × (has 2 (one_by_one 1 2 book).contacts ≡ false)
    × (has 2 (overlapping 1 2 book).contacts ≡ false)
    × (has 1 (overlapping 1 2 book).contacts ≡ has 1 book.contacts)
overlapping_lem_example = overlapping_lem 1 2 book one_not_two

-- A password that is typed, submitted and confirmed.
abbrev typed : Profile
typed = set_passwords (codes "old") (codes "longenough") (codes "longenough") Profile.initial

abbrev submitted : Profile
submitted = handle_password_submit typed

closed : Profile.initial.show_pass_confirm ≡ false
unfolding Profile.initial
closed = refl

still_closed : typed.show_pass_confirm ≡ false
unfolding set_passwords Profile.initial
still_closed = refl

asked : submitted.show_pass_confirm ≡ true
unfolding handle_password_submit set_passwords Profile.initial text_eq
asked = refl

Reach-IsSafe_example : IsSafe (handle_password_update (ok tt) submitted)
Reach-IsSafe_example = Reach-IsSafe (handle_password_update (ok tt) submitted) (
    Password.next
      (Password.next
        (Password.next Password.start
          (Password.types (codes "old") (codes "longenough") (codes "longenough") closed))
        (Password.submits still_closed))
      (Password.confirms (ok tt) asked))

-- The builder, once the first query of the stream has been sent.
abbrev served : Query.Builder
served =
    Query.handle_execute_query (Query.answered []) (Query.select_source Query.kafka Query.initial)

Reach-IsServed_example : IsServed served
Reach-IsServed_example = Reach-IsServed served (
    Offered.next (Offered.next Offered.start (Offered.switches Query.kafka))
      (Offered.executes (Query.answered [])))
