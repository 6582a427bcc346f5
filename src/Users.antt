-- ===== src/Users.antt =====
-- frontend/components/admin/UserManagement.tsx: the administrator's list of users with its
-- search and its pages, the erasure of a user, and the manual synchronisation. A handler runs
-- on the state of the last rendering; its call of the server ends with the outcome that it is
-- given. The list is fetched apart.
pub mod Pages
pub mod Deletion
use ikarin_bank.Prelude.{
  ℕ, zero, suc, ◌+◌, ◌-◌, ◌*◌, ◌/◌, Bool, true, false, not, ◌&&◌, ◌||◌, List, [], ◌∷◌, ◌++◌, Option,
  none, some, ltb, leb, ◌==◌, if◌then◌else◌, length, take, drop, filter,
}
use ikarin_bank.Text.{Text, codes, is_empty, text_eq, includes, to_lower_case}
use ikarin_bank.Transfer.{text_or}

-- What the page takes from a user.
pub record User : Type 0 where
  pub id : ℕ
  pub first_name : Option Text
  pub last_name : Option Text
  pub email : Text

-- `deleteStep`: 0, 1 and 2.
pub data DeleteStep : Type 0 where
  hidden awareness email_confirm : DeleteStep

-- The state, the fetches of the list that have begun and not ended, and the calls that delete a
-- user: who was found, and the text that confirmed it, the first call first.
pub record Users : Type 0 where
  pub users : List User
  pub loading : Bool
  pub search_email : Text
  pub found_user : Option User
  pub search_loading : Bool
  pub search_error : Text
  pub delete_loading : Bool
  pub delete_error : Text
  pub delete_success : Text
  pub delete_step : DeleteStep
  pub confirm_email : Text
  pub search_term : Text
  pub current_page : ℕ
  pub sync_loading : Bool
  pub sync_error : Text
  pub sync_success : Text
  pub fetches : ℕ
  pub deletions : List (User × Text)

-- The state of the first rendering.
unfoldable pub initial : Users
initial = record {
  users = [];
  loading = false;
  search_email = [];
  found_user = none;
  search_loading = false;
  search_error = [];
  delete_loading = false;
  delete_error = [];
  delete_success = [];
  delete_step = hidden;
  confirm_email = [];
  search_term = [];
  current_page = 1;
  sync_loading = false;
  sync_error = [];
  sync_success = [];
  fetches = 0;
  deletions = [];
}

-- `fetchUsers` up to its call, and behind it: `none` for an answer that is not ok and for an error.
unfoldable pub begin_fetch_users : Users → Users
begin_fetch_users s = record s { loading = true; fetches = s.fetches + 1 }

unfoldable pub end_fetch_users : Option (List User) → Users → Users
end_fetch_users none s = record s { loading = false; fetches = s.fetches - 1 }
end_fetch_users (some answer) s = record s {
  users = answer;
  loading = false;
  fetches = s.fetches - 1;
}

-- How a call of the server ends: with an answer that is ok, with one that is not and its
-- detail, or with an error and its message.
pub data Outcome (A : Type 0) : Type 0 where
  ok : A → Outcome A
  not_ok : Option Text → Outcome A
  threw : Text → Outcome A

-- The message of the error that the handlers catch.
abbrev pub sync_ended : Outcome Unit → Users → Users
sync_ended (ok _) s = record s {
  sync_success = codes "Sync successfully triggered in the background.";
}
sync_ended (not_ok detail) s = record s {
  sync_error = text_or detail (codes "Failed to trigger sync");
}
sync_ended (threw message) s = record s { sync_error = message }

-- `handleManualSync`
unfoldable pub handle_manual_sync : Outcome Unit → Users → Users
handle_manual_sync outcome s =
    let syncing = record s { sync_loading = true; sync_success = []; sync_error = [] } in
    record (sync_ended outcome syncing) { sync_loading = false }

-- The timer of a success.
unfoldable pub clear_sync_success : Users → Users
clear_sync_success s = record s { sync_success = [] }

abbrev pub search_ended : Outcome User → Users → Users
search_ended (ok u) s = record s { found_user = some u }
search_ended (not_ok detail) s = record s { search_error = text_or detail (codes "User not found") }
search_ended (threw message) s = record s { search_error = message }

-- `handleSearchUser`
unfoldable pub handle_search_user : Outcome User → Users → Users
handle_search_user outcome s =
    let searching = record s {
      search_error = [];
      found_user = none;
      search_loading = true;
      delete_success = [];
    } in
    record (search_ended outcome searching) { search_loading = false }

abbrev pub delete_ended : User → Outcome Unit → Users → Users
delete_ended u (ok _) s = begin_fetch_users (record s {
  delete_success = codes "User " ++ u.email ++ codes " has been purged.";
  found_user = none;
  search_email = [];
  confirm_email = [];
  delete_step = hidden;
})
delete_ended u (not_ok detail) s = record s {
  delete_error = text_or detail (codes "Failed to delete user");
}
delete_ended u (threw message) s = record s { delete_error = message }

-- `handleDeleteUser` behind its guard.
unfoldable pub delete_found : Outcome Unit → User → Users → Users
delete_found outcome u s =
    let deleting = record s {
      delete_loading = true;
      delete_error = [];
      delete_step = hidden;
      deletions = s.deletions ++ (u, s.confirm_email) ∷ [];
    } in
    record (delete_ended u outcome deleting) { delete_loading = false }

-- `handleDeleteUser`; without a found user it throws before it does anything.
abbrev pub delete_user : Outcome Unit → Option User → Users → Users
delete_user outcome none s = s
delete_user outcome (some u) s =
    if not (text_eq s.confirm_email u.email)
    then record s { delete_error = codes "Confirmation email does not match" }
    else delete_found outcome u s

unfoldable pub handle_delete_user : Outcome Unit → Users → Users
handle_delete_user outcome s = delete_user outcome s.found_user s

-- The inputs and the buttons of the erasure: the row's button, the fields, the steps.
unfoldable pub choose_user : User → Users → Users
choose_user u s = record s { found_user = some u; search_email = u.email }

unfoldable pub set_search_email : Text → Users → Users
set_search_email t s = record s { search_email = t }

unfoldable pub set_confirm_email : Text → Users → Users
set_confirm_email t s = record s { confirm_email = t }

unfoldable pub set_delete_step : DeleteStep → Users → Users
set_delete_step step s = record s { delete_step = step }

-- The input of the quick search, with the effect that goes back to the first page if the text
-- is another one.
unfoldable pub set_search_term : Text → Users → Users
set_search_term t s =
    if text_eq t s.search_term then s else record s { search_term = t; current_page = 1 }

-- `(field || "").toLowerCase().includes(term)`
abbrev pub field_includes : Option Text → Text → Bool
field_includes none term = includes [] term
field_includes (some field) term = includes (to_lower_case field) term

abbrev pub matches : Text → User → Bool
matches term u =
    field_includes u.first_name term
    || field_includes u.last_name term
    || field_includes (some u.email) term

-- `filteredUsers`
unfoldable pub filtered_users : Users → List User
filtered_users s =
    if is_empty s.search_term
    then s.users
    else filter (matches (to_lower_case s.search_term)) s.users

abbrev pub page_size : ℕ
page_size = 10

-- `totalPages`, of a list.
unfoldable pub total_pages : List User → ℕ
total_pages us = (length us + (page_size - 1)) / page_size

-- `paginatedUsers`, of a list and a page from 1 on.
unfoldable pub paginated_users : ℕ → List User → List User
paginated_users current_page us = take page_size (drop ((current_page - 1) * page_size) us)

-- The two arrows.
unfoldable pub previous_page : Users → Users
previous_page s = record s { current_page = if leb s.current_page 1 then 1 else s.current_page - 1 }

unfoldable pub next_page : Users → Users
next_page s =
    let total = total_pages (filtered_users s) in
    record s { current_page = if leb (s.current_page + 1) total then s.current_page + 1 else total }

-- The page of the button at a place, and how many buttons there are.
unfoldable pub page_num : ℕ → ℕ → ℕ → ℕ
page_num total current i =
    if ltb 5 total && ltb 3 current
    then if ltb total (current - 2 + i) then total - (4 - i) else current - 2 + i
    else i + 1

abbrev pub button_count : ℕ → ℕ
button_count total = if leb 5 total then 5 else total

unfoldable pub set_current_page : ℕ → Users → Users
set_current_page page s = record s { current_page = page }
