-- ===== src/Routing/Account.antt =====
-- frontend/lib/routingUtils.ts: account numbers. The check digits by two rules, the validation with
-- its errors in order, the pair of accounts behind a routing number, and the formatting in groups.
pub mod Validity
pub mod Groups
use ikarin_bank.Prelude.{
  ℕ, zero, suc, ◌+◌, ◌-◌, ◌%◌, Bool, true, false, not, ◌&&◌, List, [], ◌∷◌, ◌++◌, Option, none,
  some, ltb, leb, ◌==◌, if◌then◌else◌, length, take, drop,
}
use ikarin_bank.Text.{Text, is_digit, keep, is_empty, text_eq, trim, join}
use ikarin_bank.Routing.{
  number_of_unit, add_number, same_number, complement_10, account_number_regex, RoutingError,
  validate_routing_number,
}

-- `AccountCheckMethod`
pub data AccountCheckMethod : Type 0 where
  no_check mod9 mod10 : AccountCheckMethod

-- `digits.slice(0, -1)`
abbrev pub without_last : Text → Text
without_last [] = []
without_last (c ∷ []) = []
without_last (c ∷ d ∷ s) = c ∷ without_last (d ∷ s)

-- `Number(digits[digits.length - 1])`
abbrev pub last_number : Text → Option ℕ
last_number [] = none
last_number (c ∷ []) = number_of_unit c
last_number (c ∷ d ∷ s) = last_number (d ∷ s)

-- The loop that adds the digits up.
unfoldable pub digit_sum : Text → Option ℕ → Option ℕ
digit_sum [] sum = sum
digit_sum (c ∷ s) sum = digit_sum s (add_number sum (number_of_unit c))

abbrev pub remainder_9 : Option ℕ → Option ℕ
remainder_9 none = none
remainder_9 (some sum) = some (sum % 9)

-- `computeMod9CheckDigit`
unfoldable pub compute_mod9_check_digit : Text → Option ℕ
compute_mod9_check_digit digits = remainder_9 (digit_sum (without_last digits) (some 0))

-- `computeMod10CheckDigit`
unfoldable pub compute_mod10_check_digit : Text → Option ℕ
compute_mod10_check_digit digits = complement_10 (digit_sum (without_last digits) (some 0))

-- `detectCheckMethod`
unfoldable pub detect_check_method : Text → List AccountCheckMethod
detect_check_method s =
    if ltb (length s) 2
    then []
    else (if same_number (last_number s) (compute_mod9_check_digit s) then mod9 ∷ [] else [])
      ++ (if same_number (last_number s) (compute_mod10_check_digit s) then mod10 ∷ [] else [])

-- The messages of `validateAccountNumber`, with the values that they show.
pub data AccountError : Type 0 where
  too_short too_long not_digits need_2_digits : AccountError
  invalid_check_digit : AccountCheckMethod → (expected got : Option ℕ) → AccountError

-- `AccountValidationResult`; `check_method` is `none` where the field is undefined.
pub record AccountValidationResult : Type 0 where
  pub valid : Bool
  pub errors : List AccountError
  pub check_method : Option (List AccountCheckMethod)

abbrev pub min_account_length : ℕ
min_account_length = 4

abbrev pub max_account_length : ℕ
max_account_length = 17

abbrev pub refused : List AccountError → AccountValidationResult
refused errors = record { valid = false; errors = errors; check_method = none }

-- `expectedCheckDigit ?? …`
abbrev pub given_or : Option (Option ℕ) → Option ℕ → Option ℕ
given_or none computed = computed
given_or (some given) computed = given

-- The last part of `validateAccountNumber`, for a method that has a check digit.
unfoldable pub validate_check_method :
    Text → AccountCheckMethod → Option (Option ℕ) → Option ℕ → AccountValidationResult
validate_check_method trimmed method given computed =
    let last_digit = last_number trimmed in
    let expected = given_or given computed in
    if ltb (length trimmed) 2
    then refused (need_2_digits ∷ [])
    else if not (same_number last_digit expected)
    then refused (invalid_check_digit method expected last_digit ∷ [])
    else record { valid = true; errors = []; check_method = none }

-- What follows the tests of length and of digits.
unfoldable pub validate_method :
    Text → AccountCheckMethod → Option (Option ℕ) → AccountValidationResult
validate_method trimmed no_check given = record {
  valid = true;
  errors = [];
  check_method = if leb 2 (length trimmed) then some (detect_check_method trimmed) else none;
}
validate_method trimmed mod9 given =
    validate_check_method trimmed mod9 given (compute_mod9_check_digit trimmed)
validate_method trimmed mod10 given =
    validate_check_method trimmed mod10 given (compute_mod10_check_digit trimmed)

abbrev pub length_errors : ℕ → List AccountError
length_errors n =
    (if ltb n min_account_length then too_short ∷ [] else [])
    ++ (if ltb max_account_length n then too_long ∷ [] else [])

-- `validateAccountNumber` at a string. An expected digit that is given is a natural number or NaN.
unfoldable pub validate_account_number :
    Text → AccountCheckMethod → Option (Option ℕ) → AccountValidationResult
validate_account_number account_number method given =
    let trimmed = trim account_number in
    let errors = length_errors (length trimmed) in
    if not (account_number_regex trimmed)
    then refused (errors ++ not_digits ∷ [])
    else elim errors [ [] ↦ validate_method trimmed method given | e ∷ es ↦ refused (e ∷ es) ]

-- `isAccountNumberValid`
unfoldable pub is_account_number_valid : Text → AccountCheckMethod → Option (Option ℕ) → Bool
is_account_number_valid s method given = (validate_account_number s method given).valid

-- The messages of `validateAccountPair`; those of an account are joined into one.
pub data PairError : Type 0 where
  routing : RoutingError → PairError
  source destination : List AccountError → PairError
  must_differ : PairError

-- `PairValidationResult`
pub record PairValidationResult : Type 0 where
  pub valid : Bool
  pub errors : List PairError

abbrev pub routing_errors : List RoutingError → List PairError
routing_errors [] = []
routing_errors (e ∷ es) = routing e ∷ routing_errors es

abbrev pub no_errors : List PairError → Bool
no_errors [] = true
no_errors (e ∷ es) = false

-- `validateAccountPair`
unfoldable pub validate_account_pair : Text → Text → Text → PairValidationResult
validate_account_pair routing_number source_account destination_account =
    let r = validate_routing_number routing_number in
    let s = validate_account_number source_account no_check none in
    let d = validate_account_number destination_account no_check none in
    let errors =
      (if not r.valid then routing_errors r.errors else [])
      ++ ((if not s.valid then source s.errors ∷ [] else [])
          ++ ((if not d.valid then destination d.errors ∷ [] else [])
              ++ (if text_eq (trim source_account) (trim destination_account)
                  then must_differ ∷ []
                  else []))) in
    record { valid = no_errors errors; errors = errors }

-- The loop of `formatAccountNumber`: four digits go from the right end of `remaining` to the front of
-- the groups. `none` means that the fuel ran out.
unfoldable pub split_groups : ℕ → Text → List Text → Option (List Text)
split_groups zero remaining groups = none
split_groups (suc fuel) remaining groups =
    let n = length remaining in
    let rest = split_groups fuel (take (n - 4) remaining) (drop (n - 4) remaining ∷ groups) in
    if ltb 4 n then rest else some (if ltb 0 n then remaining ∷ groups else groups)

abbrev pub join_groups : Option (List Text) → Option Text
join_groups none = none
join_groups (some groups) = some (join (45 ∷ []) groups)

-- `formatAccountNumber`
unfoldable pub format_account_number : Text → Option Text
format_account_number digits =
    let clean = keep is_digit digits in
    if leb (length clean) 8
    then some clean
    else join_groups (split_groups (suc (length clean)) clean [])
