-- ===== src/Routing.antt =====
-- frontend/lib/routingUtils.ts: ABA routing numbers. The check digit, the validation with its errors
-- in order, the districts, the decoded number and the formatting. A number that may be NaN is an
-- `Option`, `none` for NaN; an error carries what its message shows.
pub mod Account
pub mod CheckDigit
pub mod Validity
pub mod Detection
use ikarin_bank.Prelude.{
  ℕ, zero, suc, ◌+◌, ◌-◌, ◌*◌, ◌%◌, ◌≡◌, refl, Bool, true, false, not, ◌&&◌, ◌||◌, List, [], ◌∷◌,
  ◌++◌, Option, none, some, ltb, leb, ◌==◌, if◌then◌else◌, length, take, drop, get_elem?,
}
use ikarin_bank.Prelude.Int.{ℤ, pos, negsuc}
use ikarin_bank.Text.{Text, codes, is_digit, is_space, keep, every, is_empty, text_eq, trim}
use ikarin_bank.Text.Decimal.{value}

-- `/^\d{9}$/` and `/^\d+$/`
unfoldable pub routing_number_regex : Text → Bool
routing_number_regex s = length s == 9 && every is_digit s

unfoldable pub account_number_regex : Text → Bool
account_number_regex s = not (is_empty s) && every is_digit s

-- `Number` of one unit of a text: a digit, white space (0), or NaN.
unfoldable pub number_of_unit : ℕ → Option ℕ
number_of_unit c = if is_digit c then some (c - 48) else if is_space c then some 0 else none

abbrev pub add_number : Option ℕ → Option ℕ → Option ℕ
add_number none b = none
add_number (some a) none = none
add_number (some a) (some b) = some (a + b)

abbrev pub scale : ℕ → Option ℕ → Option ℕ
scale w none = none
scale w (some a) = some (a * w)

-- `a === b` on numbers: NaN equals nothing.
abbrev pub same_number : Option ℕ → Option ℕ → Bool
same_number none b = false
same_number (some a) none = false
same_number (some a) (some b) = a == b

-- The ways a call of `computeRoutingCheckDigit` ends.
pub data CheckDigitResult : Type 0 where
  digit : Option ℕ → CheckDigitResult
  expected_8_digits : ℕ → CheckDigitResult

abbrev pub weights : List ℕ
weights = 3 ∷ 7 ∷ 1 ∷ 3 ∷ 7 ∷ 1 ∷ 3 ∷ 7 ∷ []

-- The loop over the digits and their weights.
unfoldable pub weighted_sum : Text → List ℕ → Option ℕ → Option ℕ
weighted_sum [] ws sum = sum
weighted_sum (c ∷ s) [] sum = none
weighted_sum (c ∷ s) (w ∷ ws) sum = weighted_sum s ws (add_number sum (scale w (number_of_unit c)))

abbrev pub complement_10 : Option ℕ → Option ℕ
complement_10 none = none
complement_10 (some sum) = some ((10 - sum % 10) % 10)

-- `computeRoutingCheckDigit`
unfoldable pub compute_routing_check_digit : Text → CheckDigitResult
compute_routing_check_digit digits =
    let d8 = if ltb 8 (length digits) then take 8 digits else digits in
    if not (length d8 == 8)
    then expected_8_digits (length d8)
    else digit (complement_10 (weighted_sum d8 weights (some 0)))

-- `getFederalReserveDistrict`; `none` is -1.
unfoldable pub get_federal_reserve_district : ℕ → Option ℕ
get_federal_reserve_district first_two =
    if leb 0 first_two && leb first_two 12
    then some (if first_two == 0 then 1 else first_two)
    else if leb 21 first_two && leb first_two 29
    then some 2
    else if leb 30 first_two && leb first_two 32
    then some 3
    else if leb 61 first_two && leb first_two 69
    then some 12
    else if leb 70 first_two && leb first_two 72
    then some 10
    else if first_two == 80
    then some 8
    else if leb 90 first_two && leb first_two 92
    then some 12
    else none

-- The messages of `validateRoutingNumber`, with the values that they show.
pub data RoutingError : Type 0 where
  invalid_length : ℕ → RoutingError
  not_digits : RoutingError
  all_zeros : RoutingError
  invalid_check_digit : (expected got : Option ℕ) → RoutingError
  invalid_prefix : Text → RoutingError

-- `RoutingValidationResult`. The check digit -1 of the source is `some (negsuc 0)`.
pub record RoutingValidationResult : Type 0 where
  pub valid : Bool
  pub errors : List RoutingError
  pub check_digit : Option ℤ
  pub expected_check_digit : Option (Option ℕ)
  pub federal_reserve_district : Option ℕ

abbrev pub to_int : Option ℕ → Option ℤ
to_int none = none
to_int (some n) = some (pos n)

-- A result that names no expected digit and no district.
abbrev pub rejected : List RoutingError → Option ℤ → RoutingValidationResult
rejected errors check_digit = record {
  valid = false;
  errors = errors;
  check_digit = check_digit;
  expected_check_digit = none;
  federal_reserve_district = none;
}

-- `Number(trimmed[i])`
abbrev pub number_at : Text → ℕ → Option ℕ
number_at s i = elim (get_elem? s i) [ none ↦ none | some c ↦ number_of_unit c ]

-- The answer for a text of nine digits whose check digit is right.
unfoldable pub validate_district : Text → RoutingValidationResult
validate_district trimmed = elim (get_federal_reserve_district (value 0 (take 2 trimmed))) [
  | none ↦ rejected (invalid_prefix (take 2 trimmed) ∷ []) (to_int (number_at trimmed 8))
  | some district ↦ record {
    valid = true;
    errors = [];
    check_digit = to_int (number_at trimmed 8);
    expected_check_digit = none;
    federal_reserve_district = some district;
  }
]

-- The answer for a text of nine digits, once its check digit is computed. A text of eight digits
-- makes no call throw.
unfoldable pub validate_check_digit : Text → CheckDigitResult → RoutingValidationResult
validate_check_digit trimmed (expected_8_digits n) = rejected [] none
validate_check_digit trimmed (digit expected) =
    let last_digit = number_at trimmed 8 in
    if not (same_number last_digit expected)
    then record {
      valid = false;
      errors = invalid_check_digit expected last_digit ∷ [];
      check_digit = to_int last_digit;
      expected_check_digit = some expected;
      federal_reserve_district = none;
    }
    else validate_district trimmed

abbrev pub nine_zeros : Text
nine_zeros = codes "000000000"

-- `validateRoutingNumber` at a string.
unfoldable pub validate_routing_number : Text → RoutingValidationResult
validate_routing_number routing_number =
    let trimmed = trim routing_number in
    if not (routing_number_regex trimmed)
    then rejected
        ((if not (length trimmed == 9) then invalid_length (length trimmed) ∷ [] else [])
          ++ (if not (account_number_regex trimmed) then not_digits ∷ [] else []))
        (some (negsuc 0))
    else if text_eq trimmed nine_zeros
    then rejected (all_zeros ∷ []) (some (pos 0))
    else validate_check_digit trimmed (compute_routing_check_digit (take 8 trimmed))

-- `isRoutingNumberValid`
unfoldable pub is_routing_number_valid : Text → Bool
is_routing_number_valid s = (validate_routing_number s).valid

-- `RoutingInfo`
pub record RoutingInfo : Type 0 where
  pub thrift_indicator : Text
  pub federal_reserve_district : Option ℕ
  pub institution_type : Text

-- The table of `parseRoutingNumber`, at the digit `c`.
unfoldable pub institution_type_of : ℕ → Text
institution_type_of c =
    if c == b'0'
    then codes "Reserve Bank"
    else if c == b'1'
    then codes "Thrift Institution"
    else if c == b'6'
    then codes "Foreign Branch"
    else if c == b'7'
    then codes "Regular Depository"
    else if c == b'8'
    then codes "Credit Union / Non-Fed"
    else if c == b'9'
    then codes "In-house Locator"
    else codes "Unknown (" ++ c ∷ codes ")"

-- `parseRoutingNumber`; a valid number has an eighth digit.
unfoldable pub parse_routing_number : Text → Option RoutingInfo
parse_routing_number routing_number =
    let trimmed = trim routing_number in
    if not (validate_routing_number routing_number).valid
    then none
    else elim (get_elem? trimmed 7) [
      | none ↦ none
      | some type_digit ↦ some (record {
        thrift_indicator = if type_digit == b'1' then codes "1" else codes "0";
        federal_reserve_district = get_federal_reserve_district (value 0 (take 2 trimmed));
        institution_type = institution_type_of type_digit;
      })
    ]

-- `stripRoutingNumber`
unfoldable pub strip_routing_number : Text → Text
strip_routing_number raw = keep is_digit raw

-- `formatRoutingNumber`
unfoldable pub format_routing_number : Text → Text
format_routing_number digits =
    let clean = keep is_digit digits in
    if not (length clean == 9) then digits else take 4 clean ++ 45 ∷ take 5 (drop 4 clean)
