-- ===== src/Users/Deletion.antt =====
-- Which users the page deletes, and what it fetches afterwards.
use ikarin_bank.Prelude.{
  ℕ, ◌≡◌, refl, List, [], ◌∷◌, ◌++◌, Option, none, some, Bool-cases, inl, inr,
}
use ikarin_bank.Text.{Text, text_eq}
use ikarin_bank.Text.Laws.{text_eq→eq}
use ikarin_bank.Users.{
  User, Users, DeleteStep, Outcome, ok, not_ok, threw, initial, begin_fetch_users, end_fetch_users,
  handle_manual_sync, clear_sync_success, handle_search_user, handle_delete_user, delete_user,
  delete_found, choose_user, set_search_email, set_confirm_email, set_delete_step, set_search_term,
  previous_page, next_page, set_current_page,
}

-- What an administrator and the server do to the page, in any order.
pub data Move : Users → Users → Type 0 where
  fetches_begin : {s : Users} → Move s (begin_fetch_users s)
  fetches_end : {s : Users} (answer : Option (List User)) → Move s (end_fetch_users answer s)
  syncs : {s : Users} (outcome : Outcome Unit) → Move s (handle_manual_sync outcome s)
  clears : {s : Users} → Move s (clear_sync_success s)
  searches : {s : Users} (outcome : Outcome User) → Move s (handle_search_user outcome s)
  deletes : {s : Users} (outcome : Outcome Unit) → Move s (handle_delete_user outcome s)
  chooses : {s : Users} (u : User) → Move s (choose_user u s)
  types_email : {s : Users} (t : Text) → Move s (set_search_email t s)
  types_confirmation : {s : Users} (t : Text) → Move s (set_confirm_email t s)
  steps : {s : Users} (step : DeleteStep) → Move s (set_delete_step step s)
  types_term : {s : Users} (t : Text) → Move s (set_search_term t s)
  goes_back : {s : Users} → Move s (previous_page s)
  goes_on : {s : Users} → Move s (next_page s)
  goes_to : {s : Users} (page : ℕ) → Move s (set_current_page page s)

pub data Reach : Users → Type 0 where
  start : Reach initial
  next : {s s' : Users} → Reach s → Move s s' → Reach s'

-- Every deletion was confirmed by the email of its user.
unfoldable pub EveryConfirmed : List (User × Text) → Type 0
EveryConfirmed [] = Unit
EveryConfirmed ((u, t) ∷ ds) = (t ≡ u.email) × EveryConfirmed ds

EveryConfirmed-append :
    (ds : List (User × Text)) (u : User) (t : Text)
    → EveryConfirmed ds
    → t ≡ u.email
    → EveryConfirmed (ds ++ (u, t) ∷ [])
unfolding EveryConfirmed
EveryConfirmed-append [] u t h e = (e, tt)
EveryConfirmed-append ((v, r) ∷ ds) u t (g, h) e = (g, EveryConfirmed-append ds u t h e)

deletions-search :
    (outcome : Outcome User) (s : Users) → (handle_search_user outcome s).deletions ≡ s.deletions
unfolding handle_search_user
deletions-search (ok u) s = refl
deletions-search (not_ok d) s = refl
deletions-search (threw m) s = refl

deletions-sync :
    (outcome : Outcome Unit) (s : Users) → (handle_manual_sync outcome s).deletions ≡ s.deletions
unfolding handle_manual_sync
deletions-sync (ok u) s = refl
deletions-sync (not_ok d) s = refl
deletions-sync (threw m) s = refl

deletions-fetch :
    (answer : Option (List User)) (s : Users) → (end_fetch_users answer s).deletions ≡ s.deletions
unfolding end_fetch_users
deletions-fetch none s = refl
deletions-fetch (some us) s = refl

deletions-term : (t : Text) (s : Users) → (set_search_term t s).deletions ≡ s.deletions
unfolding set_search_term
deletions-term t s = elim (Bool-cases (text_eq t s.search_term)) [
  | inl e ↦ rw e refl
  | inr e ↦ rw e refl
]

delete_found_lem :
    (outcome : Outcome Unit) (u : User) (s : Users)
    → (delete_found outcome u s).deletions ≡ s.deletions ++ (u, s.confirm_email) ∷ []
unfolding delete_found begin_fetch_users
delete_found_lem (ok _) u s = refl
delete_found_lem (not_ok d) u s = refl
delete_found_lem (threw m) u s = refl

EveryConfirmed-delete :
    (outcome : Outcome Unit) (found : Option User) (s : Users)
    → EveryConfirmed s.deletions
    → EveryConfirmed (delete_user outcome found s).deletions
EveryConfirmed-delete outcome none s h = h
EveryConfirmed-delete outcome (some u) s h = elim (Bool-cases (text_eq s.confirm_email u.email)) [
  | inr e ↦ rw e h
  | inl e ↦
      rw (e, delete_found_lem outcome u s)
        (EveryConfirmed-append s.deletions u s.confirm_email h (text_eq→eq _ _ e))
]

EveryConfirmed-Move :
    {s s' : Users} → Move s s' → EveryConfirmed s.deletions → EveryConfirmed s'.deletions
unfolding begin_fetch_users clear_sync_success choose_user set_search_email set_confirm_email
    set_delete_step previous_page next_page set_current_page handle_delete_user
EveryConfirmed-Move fetches_begin h = h
EveryConfirmed-Move (fetches_end {s} answer) h = rw (deletions-fetch answer s) h
EveryConfirmed-Move (syncs {s} outcome) h = rw (deletions-sync outcome s) h
EveryConfirmed-Move clears h = h
EveryConfirmed-Move (searches {s} outcome) h = rw (deletions-search outcome s) h
EveryConfirmed-Move (deletes {s} outcome) h = EveryConfirmed-delete outcome s.found_user s h
EveryConfirmed-Move (chooses u) h = h
EveryConfirmed-Move (types_email t) h = h
EveryConfirmed-Move (types_confirmation t) h = h
EveryConfirmed-Move (steps step) h = h
EveryConfirmed-Move (types_term {s} t) h = rw (deletions-term t s) h
EveryConfirmed-Move goes_back h = h
EveryConfirmed-Move goes_on h = h
EveryConfirmed-Move (goes_to page) h = h

-- However the page is used and the server answers, every call that deletes a user was made
-- while exactly the email of that user stood in the field of the confirmation.
pub Reach-EveryConfirmed : (s : Users) → Reach s → EveryConfirmed s.deletions
unfolding initial EveryConfirmed
Reach-EveryConfirmed _ start = tt
Reach-EveryConfirmed _ (next {s} r m) = EveryConfirmed-Move m (Reach-EveryConfirmed s r)
