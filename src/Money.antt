-- ===== src/Money.antt =====
-- frontend/lib/transactionUtils.ts: amounts of money as text and as integer cents, and the names of
-- the states of a transaction. A number that may be NaN is an `Option ℤ`, `none` for NaN.
pub mod RoundTrip
pub mod Reading
use ikarin_bank.Prelude.{
  ℕ, zero, suc, ◌+◌, ◌-◌, ◌*◌, ◌/◌, ◌%◌, Bool, true, false, not, ◌&&◌, ◌||◌, List, [], ◌∷◌, ◌++◌,
  Option, none, some, ◌==◌, if◌then◌else◌, take, drop,
}
use ikarin_bank.Prelude.Int.{ℤ, pos, negsuc, pos_part, neg_part, ◌+ℤ◌, ◌-ℤ◌, ◌*ℤ◌, ltb_ℤ}
use ikarin_bank.Text.{
  Text, codes, keep, text_eq, trim, split_at, starts_with, pad_end, pad_start, is_empty,
}
use ikarin_bank.Text.Laws.{differs}
use ikarin_bank.Text.Decimal.{print, group, parse_int}

-- NaN in an operand makes the result NaN.
abbrev pub add_cents : Option ℤ → Option ℤ → Option ℤ
add_cents none b = none
add_cents (some a) none = none
add_cents (some a) (some b) = some (a *ℤ pos 100 +ℤ b)

abbrev pub negate : Option ℤ → Option ℤ
negate none = none
negate (some a) = some (pos 0 -ℤ a)

abbrev pub text_or : Text → Text → Text
text_or [] d = d
text_or (c ∷ s) d = c ∷ s

-- `parts[1] || '00'`
abbrev pub second_or : List Text → Text → Text
second_or [] d = d
second_or (p ∷ ps) d = text_or p d

-- `toCents` behind its tests for a missing amount: `s` has no commas and no white space around it.
unfoldable pub parse_amount : Text → Option ℤ
parse_amount s =
    let parts = split_at 46 s in
    let dollars = text_or parts.0 (codes "0") in
    let cents = take 2 (pad_end 2 48 (second_or parts.1 (codes "00"))) in
    if starts_with dollars (codes "-")
    then negate (add_cents (parse_int (drop 1 dollars)) (parse_int cents))
    else add_cents (parse_int dollars) (parse_int cents)

-- `toCents`. The argument is the text of the amount, `amount.toString()` for a number, and `none` for
-- `undefined` and `null`.
unfoldable pub to_cents : Option Text → Option ℤ
to_cents none = some (pos 0)
to_cents (some amount) =
    let s = trim (keep (differs 44) amount) in
    if is_empty s || text_eq s (codes ".") then some (pos 0) else parse_amount s

abbrev pub magnitude : ℤ → ℕ
magnitude (pos n) = n
magnitude (negsuc n) = suc n

abbrev pub is_negative : ℤ → Bool
is_negative (pos n) = false
is_negative (negsuc n) = true

unfoldable pub dollars_text : ℕ → Text
dollars_text n = group (print (n / 100)) ++ 46 ∷ pad_start 2 48 (print (n % 100))

-- `fromCents` at an integer; `none` stands for `undefined`, `null` and NaN.
unfoldable pub from_cents : Option ℤ → Text
from_cents none = codes "0.00"
from_cents (some cents) =
    let result = dollars_text (magnitude cents) in if is_negative cents then 45 ∷ result else result

-- `formatCurrency`
unfoldable pub format_currency : Option ℤ → Bool → Text
format_currency none show_symbol = if show_symbol then codes "$0.00" else codes "0.00"
format_currency (some cents) show_symbol =
    let formatted = from_cents (some cents) in
    if not show_symbol
    then formatted
    else if starts_with formatted (codes "-")
    then codes "-$" ++ drop 1 formatted
    else codes "$" ++ formatted

-- The values of `getTransactionStatus`.
pub data Status : Type 0 where
  pending cleared failed unknown : Status

-- `getTransactionStatus`
unfoldable pub get_transaction_status : Text → Status
unfolding text_eq
get_transaction_status status =
    if text_eq status (codes "pending") || text_eq status (codes "sent_to_kafka")
    then pending
    else if text_eq status (codes "cleared")
    then cleared
    else if text_eq status (codes "failed")
    then failed
    else unknown

-- `getStatusLabel`
unfoldable pub get_status_label : Text → Text
unfolding text_eq
get_status_label status =
    if text_eq status (codes "pending")
    then codes "Pending"
    else if text_eq status (codes "cleared")
    then codes "Cleared"
    else if text_eq status (codes "failed")
    then codes "Failed"
    else codes "Unknown Status"
