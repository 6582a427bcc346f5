-- ===== src/Card.antt =====
-- frontend/lib/neobank/cardGenerator.ts and the card types of frontend/lib/neobank/types.ts: virtual
-- cards with a Luhn check digit. What `Math.random` and the clock return are arguments.
pub mod Luhn
pub mod Fields
use ikarin_bank.Prelude.{
  ℕ, zero, suc, ◌+◌, ◌-◌, ◌*◌, ◌/◌, ◌%◌, Bool, true, false, not, List, [], ◌∷◌, ◌++◌, Option, none,
  some, ltb, ◌==◌, if◌then◌else◌, length, take, drop,
}
use mathlib.Core.List.{reverse}
use ikarin_bank.Text.{Text, codes, is_space, keep, trim, to_upper_case, pad_start}
use ikarin_bank.Text.Decimal.{print}

-- The loop that adds `count` random digits: `draw i` is `Math.floor(Math.random() * 10)` in round `i`.
unfoldable pub add_random_digits : (ℕ → ℕ) → ℕ → ℕ → Text → Text
add_random_digits draw zero i digits = digits
add_random_digits draw (suc count) i digits =
    add_random_digits draw count (suc i) (digits ++ print (draw i))

-- What the digit in round `i` adds to the sum.
unfoldable pub luhn_digit : ℕ → ℕ → ℕ
luhn_digit i d = if i % 2 == 0 then (if ltb 9 (d * 2) then d * 2 - 9 else d * 2) else d

-- The loop over the digits from the last to the first, in round `i`.
unfoldable pub luhn_loop : Text → ℕ → ℕ → ℕ
luhn_loop [] i sum = sum
luhn_loop (c ∷ s) i sum = luhn_loop s (suc i) (sum + luhn_digit i (c - 48))

-- The check digit of `generateVirtualCardNumber`.
unfoldable pub luhn_check_digit : Text → ℕ
luhn_check_digit digits = (10 - luhn_loop (reverse digits) 0 0 % 10) % 10

-- `generateVirtualCardNumber`
unfoldable pub generate_virtual_card_number : (ℕ → ℕ) → Text
generate_virtual_card_number draw =
    let digits = add_random_digits draw 11 0 (codes "4790") in
    digits ++ print (luhn_check_digit digits)

-- The kinds of `cardType`.
pub data CardType : Type 0 where
  debit credit virtual : CardType

-- `CardDetails`, an optional field being an `Option`.
pub record CardDetails : Type 0 where
  pub id : Text
  pub type_of : Option CardType
  pub card_type : Option CardType
  pub name : Option Text
  pub card_holder : Option Text
  pub number : Option Text
  pub card_number : Option Text
  pub expiry : Text
  pub cvv : Text
  pub is_frozen : Bool
  pub online_enabled : Option Bool
  pub online_payments_enabled : Option Bool
  pub contactless_enabled : Option Bool
  pub international_enabled : Option Bool
  pub atm_enabled : Option Bool
  pub atm_withdrawals_enabled : Option Bool
  pub daily_limit_cents : Option ℕ
  pub daily_spending_limit_cents : Option ℕ
  pub monthly_limit_cents : Option ℕ
  pub monthly_spending_limit_cents : Option ℕ
  pub current_daily_spend_cents : Option ℕ

-- What the clock and `Math.random` return while a card is made: `Date.now()`, the month from 0 and
-- the year of `new Date()`, the four characters of the id, and `Math.floor(100 + Math.random() * 900)`.
pub record Moment : Type 0 where
  pub now : ℕ
  pub month : ℕ
  pub year : ℕ
  pub id_suffix : Text
  pub cvv_number : ℕ
  pub draw : ℕ → ℕ

abbrev pub or_valued_client : Text → Text
or_valued_client [] = codes "VALUED CLIENT"
or_valued_client (c ∷ s) = c ∷ s

-- `generateVirtualCard`
unfoldable pub generate_virtual_card : Moment → Text → CardDetails
generate_virtual_card m card_holder = record {
  id = codes "card-virtual-" ++ (print m.now ++ (45 ∷ m.id_suffix));
  type_of = some virtual;
  card_type = some virtual;
  name = none;
  card_holder = some (or_valued_client (trim (to_upper_case card_holder)));
  number = none;
  card_number = some (generate_virtual_card_number m.draw);
  expiry =
      pad_start 2 48 (print (m.month + 1)) ++ (47 ∷ pad_start 2 48 (print ((m.year + 4) % 100)));
  cvv = print m.cvv_number;
  is_frozen = false;
  online_enabled = none;
  online_payments_enabled = some true;
  contactless_enabled = some true;
  international_enabled = none;
  atm_enabled = none;
  atm_withdrawals_enabled = some false;
  daily_limit_cents = none;
  daily_spending_limit_cents = some 100000;
  monthly_limit_cents = none;
  monthly_spending_limit_cents = some 500000;
  current_daily_spend_cents = none;
}

abbrev pub not_space : ℕ → Bool
not_space c = not (is_space c)

-- `formatCardNumberMasked` of frontend/lib/neobank/utils.ts; 8226 is the bullet.
unfoldable pub format_card_number_masked : Text → Text
format_card_number_masked card_num =
    let clean = keep not_space card_num in
    if not (length clean == 16)
    then card_num
    else take 4 clean ++ (codes " •••• •••• " ++ take 4 (drop 12 clean))
