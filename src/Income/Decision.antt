-- ===== src/Income/Decision.antt =====
-- What the answer of `isTransactionIncome` rests on.
use ikarin_bank.Prelude.{true, false, Option, none, some, ◌≡◌, ◌⊎◌, refl, arith}
use ikarin_bank.Prelude.Int.{ℤ}
use ikarin_bank.Text.{Text, codes, text_eq, starts_with, to_lower_case}
use ikarin_bank.Text.Laws.{text_eq→eq}
use ikarin_bank.Income.{
  Transaction, is_text, is_one_of, includes_one_of, income_types, income_categories, or_empty,
  first_of_texts, is_user, is_transaction_income, decide_by_type, decide_by_email,
  decide_by_presence, decide_by_category,
}

category_ignores_amount :
    (tx : Transaction) (a : Option ℤ)
    → decide_by_category (record tx { amount = a }) ≡ decide_by_category tx
unfolding decide_by_category
category_ignores_amount tx a = ground arith

presence_ignores_amount :
    (tx : Transaction) (a : Option ℤ)
    → decide_by_presence (record tx { amount = a }) ≡ decide_by_presence tx
unfolding decide_by_presence
presence_ignores_amount tx a = rw (category_ignores_amount tx a)

email_ignores_amount :
    (tx : Transaction) (a : Option ℤ) (user : Option Text)
    → decide_by_email (record tx { amount = a }) user ≡ decide_by_email tx user
unfolding decide_by_email
email_ignores_amount tx a user = rw (presence_ignores_amount tx a)

type_ignores_amount :
    (tx : Transaction) (a : Option ℤ) (user : Option Text)
    → decide_by_type (record tx { amount = a }) user ≡ decide_by_type tx user
unfolding decide_by_type
type_ignores_amount tx a user = rw (email_ignores_amount tx a user)

-- The amount has no say: two transactions that differ only in their amounts are judged alike, whatever
-- the amounts and their signs.
is_transaction_income-amount :
    (tx : Transaction) (a : Option ℤ) (user : Option Text)
    → is_transaction_income (some (record tx { amount = a })) user
      ≡ is_transaction_income (some tx) user
unfolding is_transaction_income
is_transaction_income-amount tx a user = rw (type_ignores_amount tx a user)

-- The grounds on which a transaction can count as income: its side, its type, the words before the
-- name of the other side, the address of the user as the recipient, and its category.
abbrev pub IsGround : Transaction → Option Text → Type 0
IsGround tx user =
    (is_text tx.transaction_side (codes "CREDIT") ≡ true)
    ⊎ (is_one_of (to_lower_case (or_empty tx.transaction_type)) income_types ≡ true)
    ⊎ (starts_with (to_lower_case (first_of_texts tx.merchant tx.counterparty)) (codes "from ")
        ≡ true)
    ⊎ (is_user tx.recipient_email (to_lower_case (or_empty user)) ≡ true)
    ⊎ (includes_one_of (to_lower_case (or_empty tx.category)) income_categories ≡ true)

category_ground :
    (tx : Transaction)
    → decide_by_category tx ≡ true
    → includes_one_of (to_lower_case (or_empty tx.category)) income_categories ≡ true
unfolding decide_by_category
category_ground tx h = ground arith

presence_ground : (tx : Transaction) → decide_by_presence tx ≡ true → decide_by_category tx ≡ true
unfolding decide_by_presence
presence_ground tx h = ground arith

email_ground :
    (tx : Transaction) (user : Option Text)
    → decide_by_email tx user ≡ true
    → (is_user tx.recipient_email (to_lower_case (or_empty user)) ≡ true)
      ⊎ (decide_by_category tx ≡ true)
unfolding decide_by_email
email_ground tx user h = ground (arith, presence_ground tx)

type_ground :
    (tx : Transaction) (user : Option Text)
    → decide_by_type tx user ≡ true
    → (is_one_of (to_lower_case (or_empty tx.transaction_type)) income_types ≡ true)
      ⊎ (starts_with (to_lower_case (first_of_texts tx.merchant tx.counterparty)) (codes "from ")
          ≡ true)
      ⊎ (is_user tx.recipient_email (to_lower_case (or_empty user)) ≡ true)
      ⊎ (decide_by_category tx ≡ true)
unfolding decide_by_type
type_ground tx user h = ground (arith, email_ground tx user)

credit_not_debit :
    (side : Option Text)
    → is_text side (codes "CREDIT") ≡ true
    → is_text side (codes "DEBIT") ≡ false
unfolding is_text
credit_not_debit none h = refl
credit_not_debit (some s) h = rw (text_eq→eq s (codes "CREDIT") h) (unfold text_eq in refl)

-- A transaction counts as income only on one of these grounds, and one whose side is DEBIT never does.
is_transaction_income-IsGround :
    (tx : Transaction) (user : Option Text)
    → is_transaction_income (some tx) user ≡ true
    → IsGround tx user × (is_text tx.transaction_side (codes "DEBIT") ≡ false)
unfolding is_transaction_income
is_transaction_income-IsGround tx user h = (
  ground (arith, type_ground tx user, category_ground tx),
  ground (arith, credit_not_debit tx.transaction_side),
)
