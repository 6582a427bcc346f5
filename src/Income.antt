-- ===== src/Income.antt =====
-- frontend/lib/neobank/utils.ts: whether a transaction brings money in, decided by a chain of tests
-- over the fields that the back ends fill.
pub mod Decision
use ikarin_bank.Prelude.{
  ℕ, Bool, true, false, not, ◌&&◌, ◌||◌, List, [], ◌∷◌, Option, none, some, if◌then◌else◌,
}
use ikarin_bank.Prelude.Int.{ℤ, pos, ltb_ℤ}
use ikarin_bank.Text.{Text, codes, text_eq, includes, starts_with, to_lower_case, is_empty}

-- The fields of a transaction that the tests read; one that is missing is `none`.
pub record Transaction : Type 0 where
  pub transaction_side : Option Text
  pub transaction_type : Option Text
  pub merchant : Option Text
  pub counterparty : Option Text
  pub sender_email : Option Text
  pub recipient_email : Option Text
  pub category : Option Text
  pub amount : Option ℤ
  pub status : Option Text

-- `field || ''`
abbrev pub or_empty : Option Text → Text
or_empty none = []
or_empty (some s) = s

-- `a || b || ''`: a missing text and an empty one both give way to the next.
unfoldable pub first_of_texts : Option Text → Option Text → Text
first_of_texts none b = or_empty b
first_of_texts (some []) b = or_empty b
first_of_texts (some (c ∷ s)) b = c ∷ s

unfoldable pub is_text : Option Text → Text → Bool
is_text none t = false
is_text (some s) t = text_eq s t

-- A text that is there and not empty.
unfoldable pub is_present : Option Text → Bool
is_present none = false
is_present (some []) = false
is_present (some (c ∷ s)) = true

unfoldable pub is_one_of : Text → List Text → Bool
is_one_of s [] = false
is_one_of s (t ∷ ts) = text_eq s t || is_one_of s ts

unfoldable pub includes_one_of : Text → List Text → Bool
includes_one_of s [] = false
includes_one_of s (t ∷ ts) = includes s t || includes_one_of s ts

abbrev pub income_types : List Text
income_types =
    codes "income" ∷ codes "salary" ∷ codes "deposit" ∷ codes "interest" ∷ codes "cashback" ∷ []

abbrev pub expense_types : List Text
expense_types =
    codes "expense" ∷ codes "payment" ∷ codes "purchase" ∷ codes "withdrawal" ∷ codes "fee" ∷ []

abbrev pub income_categories : List Text
income_categories = codes "income" ∷ codes "salary" ∷ codes "deposit" ∷ []

abbrev pub expense_categories : List Text
expense_categories =
    codes "dining"
    ∷ codes "transport"
    ∷ codes "entertainment"
    ∷ codes "groceries"
    ∷ codes "utilities"
    ∷ codes "shopping"
    ∷ codes "rent"
    ∷ codes "insurance"
    ∷ []

-- The `typeof` test and the sign of step 7.
unfoldable pub is_negative_amount : Option ℤ → Bool
is_negative_amount none = false
is_negative_amount (some a) = ltb_ℤ a (pos 0)

-- Steps 6 and 7: the category, then the sign of the amount.
unfoldable pub decide_by_category : Transaction → Bool
decide_by_category tx =
    let cat = to_lower_case (or_empty tx.category) in
    if includes_one_of cat income_categories
    then true
    else if includes_one_of cat expense_categories
    then false
    else if is_negative_amount tx.amount
    then false
    else false

-- Step 5: a merchant whose name does not speak of income.
unfoldable pub decide_by_presence : Transaction → Bool
decide_by_presence tx =
    let merchant = to_lower_case (first_of_texts tx.merchant tx.counterparty) in
    if is_present tx.merchant
      && not (includes merchant (codes "deposit"))
      && not (includes merchant (codes "salary"))
      && not (includes merchant (codes "payroll"))
    then false
    else decide_by_category tx

unfoldable pub is_user : Option Text → Text → Bool
is_user email user = is_present email && text_eq (to_lower_case (or_empty email)) user

-- Step 4: the addresses of the two sides, where the user's is known.
unfoldable pub decide_by_email : Transaction → Option Text → Bool
decide_by_email tx user_email =
    let clean_user = to_lower_case (or_empty user_email) in
    if is_present user_email
    then (if is_user tx.recipient_email clean_user
          && is_present tx.sender_email
          && not (text_eq (to_lower_case (or_empty tx.sender_email)) clean_user)
        then true
        else if is_user tx.sender_email clean_user
        then false
        else decide_by_presence tx)
    else decide_by_presence tx

-- Steps 2 and 3: the type, then the words before the name of the other side.
unfoldable pub decide_by_type : Transaction → Option Text → Bool
decide_by_type tx user_email =
    let tx_type = to_lower_case (or_empty tx.transaction_type) in
    let merchant = to_lower_case (first_of_texts tx.merchant tx.counterparty) in
    if is_one_of tx_type income_types
    then true
    else if is_one_of tx_type expense_types
    then false
    else if starts_with merchant (codes "from ")
    then true
    else if starts_with merchant (codes "to ")
    then false
    else decide_by_email tx user_email

-- `isTransactionIncome`; a missing transaction is `none`.
unfoldable pub is_transaction_income : Option Transaction → Option Text → Bool
is_transaction_income none user_email = false
is_transaction_income (some tx) user_email =
    if is_text tx.transaction_side (codes "CREDIT")
    then true
    else if is_text tx.transaction_side (codes "DEBIT")
    then false
    else decide_by_type tx user_email

-- `isTransactionExpense`
unfoldable pub is_transaction_expense : Option Transaction → Option Text → Bool
is_transaction_expense tx user_email = not (is_transaction_income tx user_email)
