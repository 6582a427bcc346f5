-- ===== src/Users/Pages.antt =====
-- The pages of the list of users and their buttons.
use ikarin_bank.Prelude.{
  ℕ, zero, suc, ◌+◌, ◌-◌, ◌*◌, ◌≤◌, ◌<◌, ◌≡◌, ◌≢◌, ◌↔◌, refl, sym, ap, ◌∙◌, List, [], ◌∷◌, ◌++◌,
  arith, leb, leb→le, Bool-cases, inl, inr, length, take, drop, length-take, length-drop,
}
use ikarin_bank.Users.{User, page_size, total_pages, paginated_users, page_num, button_count}

-- The first pages, one behind the other.
unfoldable pub first_pages : ℕ → List User → List User
first_pages zero us = []
first_pages (suc k) us = first_pages k us ++ paginated_users (suc k) us

take-nil : (n : ℕ) → take {A = User} n [] ≡ []
take-nil zero = refl
take-nil (suc n) = refl

take-more : (m n : ℕ) (us : List User) → take m us ++ take n (drop m us) ≡ take (m + n) us
take-more zero n us = ap (λ j. take j us) (omega arith)
take-more (suc m) n [] = take-nil n ∙ sym (take-nil (suc m + n))
take-more (suc m) n (u ∷ us) =
    ap (λ t. u ∷ t) (take-more m n us) ∙ ap (λ j. take j (u ∷ us)) {x = suc (m + n)} (omega arith)

length_zero : (us : List User) → length us ≡ 0 → us ≡ []
length_zero [] h = refl
length_zero (u ∷ us) h = absurd (omega arith)

take-all : (n : ℕ) (us : List User) → length us ≤ n → take n us ≡ us
take-all zero [] h = refl
take-all zero (u ∷ us) h = absurd (omega arith)
take-all (suc n) [] h = refl
take-all (suc n) (u ∷ us) h = ap (λ t. u ∷ t) (take-all n us (omega arith))

first_pages-take : (k : ℕ) (us : List User) → first_pages k us ≡ take (k * page_size) us
unfolding first_pages paginated_users
first_pages-take zero us = refl
first_pages-take (suc k) us = rw (first_pages-take k us) (
    ap (λ j. take (k * page_size) us ++ take page_size (drop j us)) (omega arith)
    ∙ take-more (k * page_size) page_size us
    ∙ ap (λ j. take j us) (omega arith))

-- The pages from the first to the last, one behind the other, are the list: every user is on
-- one page, in order. A page has ten users at most.
pub first_pages-total_pages :
    (us : List User)
    → (first_pages (total_pages us) us ≡ us) × ((k : ℕ) → length (paginated_users k us) ≤ page_size)
unfolding total_pages paginated_users
first_pages-total_pages us = (
  first_pages-take (total_pages us) us ∙ take-all _ us (omega arith),
  λ k. omega (arith, length-take page_size (drop ((k - 1) * page_size) us)),
)

-- A page from 1 on has users exactly up to the last one.
pub paginated_users_iff :
    (k : ℕ) (us : List User) → 1 ≤ k → (paginated_users k us ≢ []) ↔ (k ≤ total_pages us)
unfolding total_pages paginated_users
paginated_users_iff k us h = (
  λ p. elim (Bool-cases (leb k (total_pages us))) [
    | inl e ↦ leb→le _ _ e
    | inr e ↦ absurd (
        p (
          length_zero _ (
            ground (
              arith,
              length-take page_size (drop ((k - 1) * page_size) us),
              length-drop ((k - 1) * page_size) us,
            ))))
  ],
  λ l e. ground (
    arith,
    length-take page_size (drop ((k - 1) * page_size) us),
    length-drop ((k - 1) * page_size) us,
  ),
)

-- On a page that there is, every button leads to a page that there is.
pub page_num_bounds :
    (total current i : ℕ)
    → 1 ≤ current
    → current ≤ total
    → i < button_count total
    → (1 ≤ page_num total current i) × (page_num total current i ≤ total)
unfolding page_num
page_num_bounds total current i h g l = ground arith

-- On the last page of more than five, the second and the fourth button lead to the same page,
-- and so do the third and the fifth, the last.
pub page_num_twice :
    (total : ℕ)
    → 5 < total
    → (page_num total total 1 ≡ page_num total total 3)
      × (page_num total total 2 ≡ page_num total total 4)
unfolding page_num
page_num_twice total h = (ground arith, ground arith)
